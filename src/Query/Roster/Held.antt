-- ===== src/Query/Roster/Held.antt =====
-- The loops of internal/query/audit.go over edges and spans: an account holds a package at an
-- instant exactly when an edge gives it rights then and the package was reached then.
use mathlib.Core.List.{foldl}
use keyholders.Base.{
  ℕ, ◌≡◌, refl, ◌∙◌, sym, inl, inr, Bool-cases, Bool, true, false, ◌&&◌, ◌||◌, if◌then◌else◌, List,
  [], ◌∷◌, Text, Table, text_eq, text_eq_iff, lookup, lookup-put, put, put-Unique, Unique, arith,
}
use keyholders.Query.Interval.{Interval, Set, empty, intersect, contains, holds_at}
use keyholders.Query.Interval.Covers.{contains-intersect}
use keyholders.Query.Interval.Insert.{insert-IsMaximal, holds_at-insert}
use keyholders.Query.Reach.{Edge, set_at}
use keyholders.Query.Reach.Offers.{held, Maximal, set_at-put}
use keyholders.Query.Roster.{Holdings, through_at, hold_span, hold_edge, no_holdings, hold_edges}

abbrev pub holds_key : Holdings → Text → Text → ℕ → Bool
holds_key s handle pkg t = held (through_at s.by_handle handle) pkg t

abbrev AllMaximal : Holdings → Type 0
AllMaximal s = (handle : Text) → Maximal (through_at s.by_handle handle)

through_at-put :
    (h j : Text) (through : Table Set) (m : Table (Table Set))
    → through_at (put h through m) j ≡ (if text_eq h j then through else through_at m j)
through_at-put h j through m = ground (arith, lookup-put h j through m)

-- The edge gives the account rights over the package at the instant.
abbrev pub grants : Edge → Text → Text → ℕ → Bool
grants e handle pkg t = text_eq e.to handle && (text_eq e.from pkg && contains e.valid t)

contains-empty : (i : Interval) (t : ℕ) → empty i ≡ true → contains i t ≡ false
contains-empty i t h = ground arith

module _ (e : Edge) (s : Holdings) (reached : Interval) where
  abbrev span : Interval
  span = intersect reached e.valid

  abbrev through : Table Set
  through = through_at s.by_handle e.to

  span-AllMaximal : AllMaximal s → AllMaximal (hold_span e s reached)
  unfolding hold_span
  span-AllMaximal m h v = elim (Bool-cases (empty span)) [
    | inl gone ↦ rw gone (m h v)
    | inr some_time ↦
        rw (some_time, through_at-put e.to h)
          (elim (Bool-cases (text_eq e.to h)) [
            | inr other ↦ rw other (m h v)
            | inl here ↦
                rw (here, set_at-put e.from v)
                  (ground (
                    arith,
                    insert-IsMaximal (set_at through e.from) span (m e.to e.from),
                    m e.to v,
                  ))
          ])
  ]

  holds_key-span :
      (h pkg : Text) (t : ℕ)
      → AllMaximal s
      → holds_key (hold_span e s reached) h pkg t
        ≡ ((contains reached t && grants e h pkg t) || holds_key s h pkg t)
  unfolding hold_span
  holds_key-span h pkg t m = elim (Bool-cases (empty span)) [
    | inl gone ↦
        rw gone (ground (arith, contains-empty span t gone, contains-intersect reached e.valid t))
    | inr some_time ↦
        rw (some_time, through_at-put e.to h)
          (elim (Bool-cases (text_eq e.to h)) [
            | inr other ↦ rw other (ground arith)
            | inl here ↦
                let same = (text_eq_iff e.to h).0 here in
                rw (here, set_at-put e.from pkg, sym same)
                  (elim (Bool-cases (text_eq e.from pkg)) [
                    | inr other ↦ rw other (ground arith)
                    | inl there ↦
                        rw (there, sym ((text_eq_iff e.from pkg).0 there))
                          (ground (
                            arith,
                            holds_at-insert (set_at through e.from) span t (m e.to e.from),
                            contains-intersect reached e.valid t,
                          ))
                  ])
          ])
  ]

  span-Unique : Unique s.by_handle → Unique (hold_span e s reached).by_handle
  unfolding hold_span
  span-Unique u = elim (Bool-cases (empty span)) [
    | inl gone ↦ rw gone u
    | inr some_time ↦ rw some_time (put-Unique e.to _ s.by_handle u)
  ]

-- All spans of one edge.
spans-AllMaximal :
    (e : Edge) (s : Holdings) (set : Set) → AllMaximal s → AllMaximal (foldl (hold_span e) s set)
spans-AllMaximal e s [] m = m
spans-AllMaximal e s (i ∷ set) m =
    spans-AllMaximal e (hold_span e s i) set (span-AllMaximal e s i m)

spans-Unique :
    (e : Edge) (s : Holdings) (set : Set)
    → Unique s.by_handle
    → Unique (foldl (hold_span e) s set).by_handle
spans-Unique e s [] u = u
spans-Unique e s (i ∷ set) u = spans-Unique e (hold_span e s i) set (span-Unique e s i u)

holds_key-spans :
    (e : Edge) (s : Holdings) (set : Set) (h pkg : Text) (t : ℕ)
    → AllMaximal s
    → holds_key (foldl (hold_span e) s set) h pkg t
      ≡ ((holds_at set t && grants e h pkg t) || holds_key s h pkg t)
holds_key-spans e s [] h pkg t m = refl
holds_key-spans e s (i ∷ set) h pkg t m = ground (
  arith,
  holds_key-spans e (hold_span e s i) set h pkg t (span-AllMaximal e s i m),
  holds_key-span e s i h pkg t m,
)

module _ (coexisting : Table Set) where
  -- Some edge gives the account rights over the package at an instant at which it was reached.
  abbrev pub granted : List Edge → Text → Text → ℕ → Bool
  granted [] h pkg t = false
  granted (e ∷ es) h pkg t = (held coexisting pkg t && grants e h pkg t) || granted es h pkg t

  edge-AllMaximal : (s : Holdings) (e : Edge) → AllMaximal s → AllMaximal (hold_edge coexisting s e)
  unfolding hold_edge
  edge-AllMaximal s e m = spans-AllMaximal e _ (set_at coexisting e.from) m

  edge-Unique :
      (s : Holdings) (e : Edge) → Unique s.by_handle → Unique (hold_edge coexisting s e).by_handle
  unfolding hold_edge
  edge-Unique s e u = spans-Unique e _ (set_at coexisting e.from) u

  holds_key-edge :
      (s : Holdings) (e : Edge) (h pkg : Text) (t : ℕ)
      → AllMaximal s
      → holds_key (hold_edge coexisting s e) h pkg t
        ≡ ((held coexisting pkg t && grants e h pkg t) || holds_key s h pkg t)
  unfolding hold_edge
  holds_key-edge s e h pkg t m =
      holds_key-spans e _ (set_at coexisting e.from) h pkg t m
      ∙ elim (Bool-cases (text_eq e.from pkg)) [
        | inr other ↦ ground (arith, other)
        | inl here ↦ rw ((text_eq_iff e.from pkg).0 here) refl
      ]

  edges-AllMaximal :
      (s : Holdings) (es : List Edge)
      → AllMaximal s
      → AllMaximal (foldl (hold_edge coexisting) s es)
  edges-AllMaximal s [] m = m
  edges-AllMaximal s (e ∷ es) m =
      edges-AllMaximal (hold_edge coexisting s e) es (edge-AllMaximal s e m)

  edges-Unique :
      (s : Holdings) (es : List Edge)
      → Unique s.by_handle
      → Unique (foldl (hold_edge coexisting) s es).by_handle
  edges-Unique s [] u = u
  edges-Unique s (e ∷ es) u = edges-Unique (hold_edge coexisting s e) es (edge-Unique s e u)

  holds_key-edges :
      (s : Holdings) (es : List Edge) (h pkg : Text) (t : ℕ)
      → AllMaximal s
      → holds_key (foldl (hold_edge coexisting) s es) h pkg t
        ≡ (granted es h pkg t || holds_key s h pkg t)
  holds_key-edges s [] h pkg t m = refl
  holds_key-edges s (e ∷ es) h pkg t m = ground (
    arith,
    holds_key-edges (hold_edge coexisting s e) es h pkg t (edge-AllMaximal s e m),
    holds_key-edge s e h pkg t m,
  )

  pub hold_edges-Unique : (es : List Edge) → Unique (hold_edges coexisting es).by_handle
  unfolding hold_edges
  hold_edges-Unique es = edges-Unique no_holdings es tt

  pub holds_key-hold_edges :
      (es : List Edge) (h pkg : Text) (t : ℕ)
      → holds_key (hold_edges coexisting es) h pkg t ≡ granted es h pkg t
  unfolding hold_edges lookup
  holds_key-hold_edges es h pkg t =
      holds_key-edges no_holdings es h pkg t (λ h v. tt) ∙ ground arith
