-- ===== src/Query/Roster/Reads.antt =====
-- The reads of maintainers of internal/query/audit.go: which edges the rows give, and which
-- packages are asked for.
use keyholders.Base.{
  ◌≡◌, refl, subst, inl, inr, Bool-cases, true, false, List, [], ◌∷◌, Text, text_eq, text_eq_iff,
  arith,
}
use keyholders.Query.Reach.{Edge, ok, has}
use keyholders.Query.Rows.{Props, Row}
use keyholders.Query.Batch.Parts.{Reads, prepend-ok, skipped, hopped}
use keyholders.Query.Batch.Returns.{Returns}
use keyholders.Query.Audit.{package_urn_of}
use keyholders.Query.Roster.{maintains_edge, read_maintains, union_packages}
use keyholders.Semver.Version.{is_empty}

-- The row is one hop, and the edge is that of a package and its maintainer.
abbrev pub Maintains : Row → Edge → Type 0
Maintains r e =
    (from : Props) × (to : Props) × (rel : Props) × (r ≡ Row.path (from ∷ to ∷ []) (rel ∷ []))
    × (e ≡ maintains_edge from to rel)

pub read_maintains-Reads :
    (rows : List Row) (es : List Edge)
    → (read_maintains rows).result ≡ ok es
    → Reads Maintains rows es
unfolding read_maintains
read_maintains-Reads [] es h =
    let e : [] ≡ es = ground (arith, h) in
    subst (Reads Maintains []) e (λ r e m k. elim m [ ], λ e m. elim m [ ])
read_maintains-Reads (Row.path (from ∷ to ∷ []) (rel ∷ []) ∷ rows) es h =
    let row = Row.path (from ∷ to ∷ []) (rel ∷ []) in
    let (fs, q, e) = prepend-ok [] (maintains_edge from to rel ∷ []) (read_maintains rows) es h in
    subst (Reads Maintains (row ∷ rows)) e (
      hopped Maintains row (maintains_edge from to rel) rows fs (from, to, rel, refl, refl)
        (λ e (f, t, r, p, q). cc) (read_maintains-Reads rows fs q))
read_maintains-Reads (Row.missing ∷ rows) es h =
    skipped Maintains Row.missing rows es (λ e (f, t, r, p, q). cc) (read_maintains-Reads rows es h)
read_maintains-Reads (Row.not_path type ∷ rows) es h =
    skipped Maintains (Row.not_path type) rows es (λ e (f, t, r, p, q). cc)
      (read_maintains-Reads rows es h)
read_maintains-Reads (Row.path [] rels ∷ rows) es h =
    skipped Maintains (Row.path [] rels) rows es (λ e (f, t, r, p, q). cc)
      (read_maintains-Reads rows es h)
read_maintains-Reads (Row.path (a ∷ []) rels ∷ rows) es h =
    skipped Maintains (Row.path (a ∷ []) rels) rows es (λ e (f, t, r, p, q). cc)
      (read_maintains-Reads rows es h)
read_maintains-Reads (Row.path (a ∷ b ∷ c ∷ nodes) rels ∷ rows) es h =
    skipped Maintains (Row.path (a ∷ b ∷ c ∷ nodes) rels) rows es (λ e (f, t, r, p, q). cc)
      (read_maintains-Reads rows es h)
read_maintains-Reads (Row.path (a ∷ b ∷ []) [] ∷ rows) es h =
    skipped Maintains (Row.path (a ∷ b ∷ []) []) rows es (λ e (f, t, r, p, q). cc)
      (read_maintains-Reads rows es h)
read_maintains-Reads (Row.path (a ∷ b ∷ []) (c ∷ d ∷ rels) ∷ rows) es h =
    skipped Maintains (Row.path (a ∷ b ∷ []) (c ∷ d ∷ rels)) rows es (λ e (f, t, r, p, q). cc)
      (read_maintains-Reads rows es h)

pub read_maintains-Returns : (rows : List Row) → Returns (read_maintains rows)
unfolding read_maintains
read_maintains-Returns [] = ([], refl)
read_maintains-Returns (Row.path (from ∷ to ∷ []) (rel ∷ []) ∷ rows) =
    let (es, q) = read_maintains-Returns rows in (maintains_edge from to rel ∷ es, rw q refl)
read_maintains-Returns (Row.missing ∷ rows) = read_maintains-Returns rows
read_maintains-Returns (Row.not_path type ∷ rows) = read_maintains-Returns rows
read_maintains-Returns (Row.path [] rels ∷ rows) = read_maintains-Returns rows
read_maintains-Returns (Row.path (a ∷ []) rels ∷ rows) = read_maintains-Returns rows
read_maintains-Returns (Row.path (a ∷ b ∷ c ∷ nodes) rels ∷ rows) = read_maintains-Returns rows
read_maintains-Returns (Row.path (a ∷ b ∷ []) [] ∷ rows) = read_maintains-Returns rows
read_maintains-Returns (Row.path (a ∷ b ∷ []) (c ∷ d ∷ rels) ∷ rows) = read_maintains-Returns rows

-- The package of a version of the union is asked for.
pub union_packages-has :
    (union : List Text) (urn : Text)
    → has union urn ≡ true
    → is_empty (package_urn_of urn) ≡ false
    → has (union_packages union) (package_urn_of urn) ≡ true
unfolding union_packages
union_packages-has [] urn h e = cc
union_packages-has (u ∷ union) urn h e = elim (Bool-cases (text_eq u urn)) [
  | inl here ↦
      rw ((text_eq_iff u urn).0 here)
        (ground (arith, e, text_eq_iff (package_urn_of urn) (package_urn_of urn)))
  | inr other ↦ ground (arith, union_packages-has union urn, e, h, other)
]
