-- ===== src/Query/Reach/Reads.antt =====
-- What the two loops of the union pass of internal/query/reach.go do to the nodes, the edges kept
-- and the next frontier.
use mathlib.Core.List.{foldl}
use keyholders.Base.{
  ◌≡◌, refl, sym, ap, ◌∙◌, subst, ◌⊎◌, inl, inr, Bool, true, false, ◌||◌, if◌then◌else◌, List, [],
  ◌∷◌, ◌++◌, arith, Bool-cases, In, In-append, In-append_left, In-append_right, In-snoc,
  In-singleton, Text, Table, text_eq, text_eq_iff, text_eq_refl, put, lookup-put,
}
use keyholders.Query.Reach.{Edge, Entry, Union, has, discover, edges_at, read_edge, start_union}

has-append : (xs : List Text) (u v : Text) → has (xs ++ u ∷ []) v ≡ (text_eq u v || has xs v)
has-append [] u v = refl
has-append (x ∷ xs) u v = ground (arith, has-append xs u v)

-- The discovery of one node.
pub record Found (s s' : Union) (u : Text) : Type 0 where
  pub holds : (v : Text) → has s'.nodes v ≡ (text_eq u v || has s.nodes v)
  pub fresh : (v : Text) → has s'.nodes v ≡ true → (has s.nodes v ≡ true) ⊎ In v s'.next
  pub keeps : (v : Text) → In v s.next → In v s'.next
  pub source : (v : Text) → In v s'.next → In v s.next ⊎ (u ≡ v)

pub discover-Found : (s : Union) (u : Text) → Found s (discover s u) u
discover-Found s u = elim (Bool-cases (has s.nodes u)) [
  | inl old ↦ rw old (record {
    holds = λ v. ground (arith, text_eq_iff u v);
    fresh = λ v h. inl h;
    keeps = λ v h. h;
    source = λ v h. inl h;
  })
  | inr new ↦ rw new (record {
    holds = λ v. has-append s.nodes u v;
    fresh = λ v h. elim (Bool-cases (text_eq u v)) [
      | inl e ↦ inr (
          subst (λ x. In x (s.next ++ u ∷ [])) ((text_eq_iff u v).0 e)
            (In-append_right s.next In.head))
      | inr e ↦ inl (ground (arith, has-append s.nodes u v))
    ];
    keeps = λ v h. In-append_left _ h;
    source = λ v h. elim (In-snoc s.next h) [ inl l ↦ inl l | inr e ↦ inr (sym e) ];
  })
]

abbrev pub leads_to : List Edge → Text → Bool
leads_to [] v = false
leads_to (e ∷ es) v = text_eq e.to v || leads_to es v

-- The answer `es` of the graph leads from `s` to `s'`.
pub record Read (es : List Edge) (s s' : Union) : Type 0 where
  pub holds : (v : Text) → has s'.nodes v ≡ (leads_to es v || has s.nodes v)
  pub fresh : (v : Text) → has s'.nodes v ≡ true → (has s.nodes v ≡ true) ⊎ In v s'.next
  pub keeps : (v : Text) → In v s.next → In v s'.next
  pub source : (v : Text) → In v s'.next → In v s.next ⊎ ((e : Edge) × In e es × (e.to ≡ v))
  pub edges_keep : (v : Text) (e : Edge) → In e (edges_at s.edges v) → In e (edges_at s'.edges v)
  pub edges_new : (e : Edge) → In e es → In e (edges_at s'.edges e.from)
  pub edges_source :
      (v : Text) (e : Edge)
      → In e (edges_at s'.edges v)
      → In e (edges_at s.edges v) ⊎ (In e es × (e.from ≡ v))

edges_at-put :
    (u v : Text) (es : List Edge) (m : Table (List Edge))
    → edges_at (put u es m) v ≡ (if text_eq u v then es else edges_at m v)
edges_at-put u v es m = ground (arith, lookup-put u v es m)

-- The edges of a node after one more edge was kept.
edges_at-add :
    (m : Table (List Edge)) (e : Edge) (v : Text)
    → edges_at (put e.from (edges_at m e.from ++ e ∷ []) m) v
      ≡ (if text_eq e.from v then edges_at m v ++ e ∷ [] else edges_at m v)
edges_at-add m e v =
    ground (arith, edges_at-put e.from v (edges_at m e.from ++ e ∷ []) m, text_eq_iff e.from v)

discover-edges : (s : Union) (u : Text) → (discover s u).edges ≡ s.edges
discover-edges s u = ground arith

-- `read_edge` before the target is looked at.
abbrev keep_edge : Union → Edge → Union
keep_edge s e = record s { edges = put e.from (edges_at s.edges e.from ++ e ∷ []) s.edges }

edges_at-read_edge :
    (s : Union) (e : Edge) (v : Text)
    → edges_at (read_edge s e).edges v
      ≡ (if text_eq e.from v then edges_at s.edges v ++ e ∷ [] else edges_at s.edges v)
unfolding read_edge
edges_at-read_edge s e v =
    ap (λ m. edges_at m v) (discover-edges (keep_edge s e) e.to) ∙ edges_at-add s.edges e v

read_edge-new :
    (s : Union) (e d : Edge) → In d (e ∷ []) → In d (edges_at (read_edge s e).edges d.from)
read_edge-new s e d m =
    let same = In-singleton m in
    subst (λ x. In x (edges_at (read_edge s e).edges x.from)) (sym same)
      (rw (edges_at-read_edge s e e.from, text_eq_refl e.from) (In-append_right _ In.head))

read_edge-Read : (s : Union) (e : Edge) → Read (e ∷ []) s (read_edge s e)
read_edge-Read s e =
    let found : Found (keep_edge s e) (read_edge s e) e.to =
      unfold read_edge in discover-Found (keep_edge s e) e.to in
    record {
      holds = λ v. ground (arith, found.holds v);
      fresh = found.fresh;
      keeps = found.keeps;
      source =
          λ v h. elim (found.source v h) [ inl old ↦ inl old | inr same ↦ inr (e, In.head, same) ];
      edges_keep = λ v d h. elim (Bool-cases (text_eq e.from v)) [
        | inl here ↦ rw (edges_at-read_edge s e v, here) (In-append_left _ h)
        | inr other ↦ rw (edges_at-read_edge s e v, other) h
      ];
      edges_new = λ d m. read_edge-new s e d m;
      edges_source = λ v d h. elim (Bool-cases (text_eq e.from v)) [
        | inl here ↦
            elim (In-snoc (edges_at s.edges v) (rw (edges_at-read_edge s e v, here) at h)) [
              | inl old ↦ inl old
              | inr same ↦ inr (
                subst (λ x. In x (e ∷ [])) (sym same) In.head,
                ap (λ x. x.from) same ∙ (text_eq_iff e.from v).0 here,
              )
            ]
        | inr other ↦ inl (rw (edges_at-read_edge s e v, other) at h)
      ];
    }

leads_to-append :
    (es ds : List Edge) (v : Text) → leads_to (es ++ ds) v ≡ (leads_to es v || leads_to ds v)
leads_to-append [] ds v = refl
leads_to-append (e ∷ es) ds v = ground (arith, leads_to-append es ds v)

Read-none : (s : Union) → Read [] s s
Read-none s = record {
  holds = λ v. refl;
  fresh = λ v h. inl h;
  keeps = λ v h. h;
  source = λ v h. inl h;
  edges_keep = λ v e h. h;
  edges_new = λ e m. elim m [ ];
  edges_source = λ v e h. inl h;
}

Read-cons :
    {e : Edge} {es : List Edge} {s t u : Union}
    → Read (e ∷ []) s t
    → Read es t u
    → Read (e ∷ es) s u
Read-cons {e} {es} p q = record {
  holds = λ v. ground (arith, q.holds v, p.holds v);
  fresh = λ v h. elim (q.fresh v h) [
    | inl old ↦ elim (p.fresh v old) [ inl older ↦ inl older | inr m ↦ inr (q.keeps v m) ]
    | inr new ↦ inr new
  ];
  keeps = λ v h. q.keeps v (p.keeps v h);
  source = λ v h. elim (q.source v h) [
    | inl old ↦ elim (p.source v old) [
      | inl older ↦ inl older
      | inr (d, m, k) ↦ inr (d, In-append_left es m, k)
    ]
    | inr (d, m, k) ↦ inr (d, In.tail m, k)
  ];
  edges_keep = λ v d h. q.edges_keep v d (p.edges_keep v d h);
  edges_new = λ d m. elim (In-append (e ∷ []) es m) [
    | inl first ↦ q.edges_keep d.from d (p.edges_new d first)
    | inr later ↦ q.edges_new d later
  ];
  edges_source = λ v d h. elim (q.edges_source v d h) [
    | inl old ↦ elim (p.edges_source v d old) [
      | inl older ↦ inl older
      | inr (m, k) ↦ inr (In-append_left es m, k)
    ]
    | inr (m, k) ↦ inr (In.tail m, k)
  ];
}

pub foldl-Read : (s : Union) (es : List Edge) → Read es s (foldl read_edge s es)
foldl-Read s [] = Read-none s
foldl-Read s (e ∷ es) = Read-cons (read_edge-Read s e) (foldl-Read (read_edge s e) es)

pub leads_to-In : {e : Edge} {es : List Edge} → In e es → leads_to es e.to ≡ true
leads_to-In {e} In.head = ground (arith, text_eq_refl e.to)
leads_to-In (In.tail m) = ground (arith, leads_to-In m)

pub leads_to_inv :
    (es : List Edge) (v : Text) → leads_to es v ≡ true → (e : Edge) × In e es × (e.to ≡ v)
leads_to_inv [] v h = cc
leads_to_inv (e ∷ es) v h = elim (Bool-cases (text_eq e.to v)) [
  | inl here ↦ (e, In.head, (text_eq_iff e.to v).0 here)
  | inr other ↦ let (d, m, k) = leads_to_inv es v (ground arith) in (d, In.tail m, k)
]

abbrev pub sourced : List Entry → Text → Bool
sourced [] v = false
sourced (s ∷ sources) v = text_eq s.urn v || sourced sources v

-- The loop over the sources leads from `s` to `s'`.
pub record Started (sources : List Entry) (s s' : Union) : Type 0 where
  pub holds : (v : Text) → has s'.nodes v ≡ (sourced sources v || has s.nodes v)
  pub fresh : (v : Text) → has s'.nodes v ≡ true → (has s.nodes v ≡ true) ⊎ In v s'.next
  pub keeps : (v : Text) → In v s.next → In v s'.next
  pub source : (v : Text) → In v s'.next → In v s.next ⊎ ((e : Entry) × In e sources × (e.urn ≡ v))
  pub edges : s'.edges ≡ s.edges

pub foldl-Started :
    (s : Union) (sources : List Entry) → Started sources s (foldl start_union s sources)
foldl-Started s [] = record {
  holds = λ v. refl;
  fresh = λ v h. inl h;
  keeps = λ v h. h;
  source = λ v h. inl h;
  edges = refl;
}
foldl-Started s (x ∷ sources) =
    let found : Found s (start_union s x) x.urn = unfold start_union in discover-Found s x.urn in
    let same : (start_union s x).edges ≡ s.edges = unfold start_union in discover-edges s x.urn in
    let q = foldl-Started (start_union s x) sources in
    record {
      holds = λ v. ground (arith, q.holds v, found.holds v);
      fresh = λ v h. elim (q.fresh v h) [
        | inl old ↦ elim (found.fresh v old) [ inl older ↦ inl older | inr m ↦ inr (q.keeps v m) ]
        | inr new ↦ inr new
      ];
      keeps = λ v h. q.keeps v (found.keeps v h);
      source = λ v h. elim (q.source v h) [
        | inl old ↦ elim (found.source v old) [
          | inl older ↦ inl older
          | inr e ↦ inr (x, In.head, e)
        ]
        | inr (y, m, e) ↦ inr (y, In.tail m, e)
      ];
      edges = q.edges ∙ same;
    }

pub sourced-In : {s : Entry} {sources : List Entry} → In s sources → sourced sources s.urn ≡ true
sourced-In {s} In.head = ground (arith, text_eq_refl s.urn)
sourced-In (In.tail m) = ground (arith, sourced-In m)

pub sourced_inv :
    (sources : List Entry) (v : Text)
    → sourced sources v ≡ true
    → (s : Entry) × In s sources × (s.urn ≡ v)
sourced_inv [] v h = cc
sourced_inv (s ∷ sources) v h = elim (Bool-cases (text_eq s.urn v)) [
  | inl here ↦ (s, In.head, (text_eq_iff s.urn v).0 here)
  | inr other ↦ let (x, m, e) = sourced_inv sources v (ground arith) in (x, In.tail m, e)
]
