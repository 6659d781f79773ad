-- ===== src/Examples/Lookups.antt =====
-- A database with one row: it reads the names back from the quotes and looks for the one source.
use keyholders.Base.{
  ◌≡◌, ◌<◌, ◌∙◌, sym, ap, subst, inl, inr, Bool-cases, true, false, if◌then◌else◌, List, [], ◌∷◌,
  Text, text_eq, text_eq_iff, split, All, In, In-singleton, In-any, any-In, any, length, Read,
  arith,
}
use keyholders.Base.Cutting.{Lacks}
use keyholders.Query.Reach.{Edge}
use keyholders.Query.Rows.{Row}
use keyholders.Query.Urns.{quote_all}
use keyholders.Query.Urns.Quoting.{pieces, pieces_rest, split-quote_all}
use keyholders.Query.Batch.{Reader}
use keyholders.Query.Batch.Parts.{Procedure}

abbrev pub asked_for : Text → Row → Text → Read (List Row)
asked_for a row values =
    if any (text_eq a) (split b'\'' values) then Read.got (row ∷ []) else Read.got []

any-pieces_rest :
    (a : Text) (valid : List Text)
    → text_eq a [] ≡ false
    → text_eq a (b',' ∷ b' ' ∷ []) ≡ false
    → any (text_eq a) (pieces_rest valid) ≡ any (text_eq a) valid
any-pieces_rest a [] e f = ground arith
any-pieces_rest a (u ∷ valid) e f = ground (arith, any-pieces_rest a valid e f)

any-pieces :
    (a : Text) (valid : List Text)
    → text_eq a [] ≡ false
    → text_eq a (b',' ∷ b' ' ∷ []) ≡ false
    → any (text_eq a) (pieces valid) ≡ any (text_eq a) valid
any-pieces a [] e f = ground arith
any-pieces a (u ∷ valid) e f = ground (arith, any-pieces_rest a valid e f)

module _ (a : Text) (row : Row) (edge : Edge) (Hop : Row → Edge → Type 0) (r : Reader Edge)
    (named : (text_eq a [] ≡ false) × (text_eq a (b',' ∷ b' ' ∷ []) ≡ false))
    (safe : (u : Text) → r.accepts u ≡ true → Lacks b'\'' u)
    (asks : (valid : List Text) → r.ask valid ≡ asked_for a row (quote_all valid))
    (here : Hop row edge) (only : (e : Edge) → Hop row e → e ≡ edge) (from : edge.from ≡ a) where
  abbrev pub graph : Text → List Edge
  graph u = if text_eq a u then edge ∷ [] else []

  abbrev Accepted : List Text → Type 0
  Accepted valid = (u : Text) → In u valid → r.accepts u ≡ true

  Accepted-Lacks : (valid : List Text) → Accepted valid → All (Lacks b'\'') valid
  Accepted-Lacks [] good = tt
  Accepted-Lacks (u ∷ valid) good =
      (safe u (good u In.head), Accepted-Lacks valid (λ v m. good v (In.tail m)))

  -- The database looks for the one source among the names.
  looks :
      (valid : List Text)
      → Accepted valid
      → r.ask valid ≡ (if any (text_eq a) valid then Read.got (row ∷ []) else Read.got [])
  looks valid good =
      let e =
        ap (λ ps. any (text_eq a) ps) (split-quote_all valid (Accepted-Lacks valid good))
        ∙ any-pieces a valid named.0 named.1 in
      asks valid ∙ ap (λ b. if b then Read.got (row ∷ []) else Read.got []) e

  from_source : In edge (graph edge.from)
  from_source =
      subst (λ b. In edge (if b then edge ∷ [] else []))
        (sym ((text_eq_iff a edge.from).1 (sym from))) In.head

  narrow : (u : Text) (rows : List Row) → r.ask (u ∷ []) ≡ Read.got rows → length rows < 20000
  narrow u rows q = elim (Bool-cases (any (text_eq a) (split b'\'' (quote_all (u ∷ []))))) [
    | inl yes_a ↦
        let e : row ∷ [] ≡ rows = ground (arith, q, asks (u ∷ []), yes_a) in
        subst (λ rs. length rs < 20000) e (omega arith)
    | inr no_a ↦
        let e : [] ≡ rows = ground (arith, q, asks (u ∷ []), no_a) in
        subst (λ rs. length rs < 20000) e (omega arith)
  ]

  sound :
      (valid : List Text) (rows : List Row) (one : Row) (e : Edge)
      → Accepted valid
      → r.ask valid ≡ Read.got rows
      → In one rows
      → Hop one e
      → In e.from valid × In e (graph e.from)
  sound valid rows one e good q m h = elim (Bool-cases (any (text_eq a) valid)) [
    | inr no_a ↦
        let e : [] ≡ rows = ground (arith, q, looks valid good, no_a) in
        elim (subst (λ rs. In one rs) (sym e) m) [ ]
    | inl yes_a ↦
        let rs : row ∷ [] ≡ rows = ground (arith, q, looks valid good, yes_a) in
        let single = In-singleton (subst (λ rs. In one rs) (sym rs) m) in
        let same = only e (subst (λ r. Hop r e) single h) in
        let (u, n, k) = any-In (text_eq a) valid yes_a in
        let source = ap (λ (x : Edge). x.from) same ∙ (from ∙ (text_eq_iff a u).0 k) in
        (
          subst (λ u. In u valid) (sym source) n,
          subst (λ (x : Edge). In x (graph x.from)) (sym same) from_source,
        )
  ]

  complete :
      (valid : List Text) (rows : List Row) (u : Text) (e : Edge)
      → Accepted valid
      → r.ask valid ≡ Read.got rows
      → In u valid
      → In e (graph u)
      → (e.from ≡ u) × ((one : Row) × In one rows × Hop one e)
  complete valid rows u e good q m k = elim (Bool-cases (text_eq a u)) [
    | inr other ↦ elim (subst (λ b. In e (if b then edge ∷ [] else [])) other k) [ ]
    | inl same ↦
        let one = In-singleton (subst (λ b. In e (if b then edge ∷ [] else [])) same k) in
        let found = In-any (text_eq a) u m same in
        let rs : row ∷ [] ≡ rows = ground (arith, q, looks valid good, found) in
        (
          ap (λ (x : Edge). x.from) one ∙ (from ∙ (text_eq_iff a u).0 same),
          (row, subst (λ rs. In row rs) rs In.head, subst (λ (x : Edge). Hop row x) (sym one) here),
        )
  ]

  pub lookup-Procedure : Procedure (λ (e : Edge). e.from) Hop r graph
  lookup-Procedure = record {
    sound = λ valid rows one e good q m h. sound valid rows one e good q m h;
    complete = λ valid rows u e good q l m k. complete valid rows u e good q m k;
    narrow = λ u rows q. narrow u rows q;
  }
