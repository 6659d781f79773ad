-- ===== src/Advisory/Ranges/Walk.antt =====
-- The walk of internal/advisory/ranges.go against what the events of a range mean.
use Prim.Native.Nat.{gt}
use keyholders.Base.{
  ◌≡◌, ◌≢◌, ◌↔◌, ◌⊎◌, inl, inr, Bool, true, false, not, List, [], ◌∷◌, arith, Bool-cases, All,
  All-weaken, All-insert_by, insert_by, sort_by,
}
use keyholders.Semver.Version.{Version, compare}
use keyholders.Semver.Version.Order.{compare-swap}
use keyholders.Semver.Version.Total.{IsCanonical, compare-le_trans}
use keyholders.Advisory.Ranges.{
  EventKind, Boundary, below, beyond, before, transition, walk, is_affected,
}

-- An event that ends the affected span at or before the version.
abbrev pub closes : Version → Boundary → Bool
closes v b = elim b.kind [
  | EventKind.introduced ↦ false
  | EventKind.fixed ↦ not (below v b.version)
  | EventKind.last_affected ↦ beyond v b.version
]

-- An event that starts an affected span at or before the version.
abbrev pub opens : Version → Boundary → Bool
opens v b = elim b.kind [ EventKind.introduced ↦ not (below v b.version) | _ ↦ false ]

-- Some event opens a span at or before the version, and none behind it closes it.
abbrev pub Opened : Version → List Boundary → Type 0
Opened v [] = ⊥
Opened v (b ∷ bounds) =
    ((opens v b ≡ true) × All (λ c. closes v c ≡ false) bounds) ⊎ Opened v bounds

-- No boundary of the list ranks above a later one.
abbrev pub Rising : List Boundary → Type 0
Rising [] = Unit
Rising (b ∷ bounds) = All (λ c. compare b.version c.version ≢ gt) bounds × Rising bounds

abbrev pub Canonical : List Boundary → Type 0
Canonical bounds = All (λ b. IsCanonical b.version) bounds

-- What lies below a boundary lies below those behind it.
below_later :
    (v b c : Version)
    → IsCanonical v
    → IsCanonical b
    → IsCanonical c
    → below v b ≡ true
    → compare b c ≢ gt
    → below v c ≡ true
below_later v b c p q r h k = elim (Bool-cases (below v c)) [
  | inl done ↦ done
  | inr reached ↦
      let low : compare c v ≢ gt = λ g. ground (arith, compare-swap c v) in
      let high : compare b v ≡ gt = ground (arith, compare-swap v b) in
      absurd (compare-le_trans b c v q r p k low high)
]

quiet :
    (v : Version) (b : Boundary) (bounds : List Boundary)
    → IsCanonical v
    → Canonical (b ∷ bounds)
    → Rising (b ∷ bounds)
    → below v b.version ≡ true
    → All (λ c. below v c.version ≡ true) bounds
quiet v b [] p can up h = tt
quiet v b (c ∷ bounds) p can up h = (
  below_later v b.version c.version p can.0 can.1.0 h up.0.0,
  quiet v b bounds p (can.0, can.1.1) (up.0.1, up.1.1) h,
)

-- Boundaries above the version open nothing and close nothing.
quiet-closes :
    (v : Version) (bounds : List Boundary)
    → All (λ c. below v c.version ≡ true) bounds
    → All (λ c. closes v c ≡ false) bounds
quiet-closes v bounds h = All-weaken _ _ bounds (λ c e. ground arith) h

quiet-Opened :
    (v : Version) (bounds : List Boundary)
    → All (λ c. below v c.version ≡ true) bounds
    → Opened v bounds
    → ⊥
quiet-Opened v [] h o = o
quiet-Opened v (c ∷ bounds) h (inl (e, rest)) = ground (arith, h.0)
quiet-Opened v (c ∷ bounds) h (inr o) = quiet-Opened v bounds h.1 o

-- One boundary at or below the version.
transition-cases :
    (v : Version) (affected : Bool) (b : Boundary)
    → below v b.version ≡ false
    → (transition v affected b ≡ true)
      ↔ ((opens v b ≡ true) ⊎ ((affected ≡ true) × (closes v b ≡ false)))
unfolding transition
transition-cases v affected b h = (λ e. ground arith, λ e. ground arith)

walk_iff :
    (v : Version) (affected : Bool) (bounds : List Boundary)
    → IsCanonical v
    → Canonical bounds
    → Rising bounds
    → (walk v affected bounds ≡ true)
      ↔ (((affected ≡ true) × All (λ c. closes v c ≡ false) bounds) ⊎ Opened v bounds)
unfolding walk
walk_iff v affected [] p can up =
    (λ h. inl (h, tt), λ h. elim h [ inl (e, _) ↦ e | inr o ↦ absurd o ])
walk_iff v affected (b ∷ bounds) p can up = elim (Bool-cases (below v b.version)) [
  | inl above ↦
      let later = quiet v b bounds p can up above in
      rw above (
        λ h. inl (h, (ground arith, quiet-closes v bounds later)),
        λ h. elim h [
          | inl (e, _) ↦ e
          | inr o ↦ absurd (quiet-Opened v (b ∷ bounds) (above, later) o)
        ],
      )
  | inr reached ↦
      let (to, of) = walk_iff v (transition v affected b) bounds p can.1 up.1 in
      let (step, back) = transition-cases v affected b reached in
      rw reached (
        λ h. elim (to h) [
          | inl (e, still) ↦ elim (step e) [
            | inl o ↦ inr (inl (o, still))
            | inr (a, c) ↦ inl (a, (c, still))
          ]
          | inr o ↦ inr (inr o)
        ],
        λ h. elim h [
          | inl (a, still) ↦ of (inl (back (inr (a, still.0)), still.1))
          | inr o ↦ elim o [
            | inl (first, still) ↦ of (inl (back (inl first), still))
            | inr rest ↦ of (inr rest)
          ]
        ],
      )
]

-- On boundaries in rising order a version is affected exactly when an event opens a span at or
-- before it and no event behind that one closes it; all versions are without leading zeros in their
-- identifiers.
pub is_affected_iff :
    (v : Version) (bounds : List Boundary)
    → IsCanonical v
    → Canonical bounds
    → Rising bounds
    → (is_affected v bounds ≡ true) ↔ Opened v bounds
unfolding is_affected
is_affected_iff v bounds p can up =
    let (to, of) = walk_iff v false bounds p can up in
    (λ h. elim (to h) [ inl (e, _) ↦ absurd (false-true e) | inr o ↦ o ], λ o. of (inr o))
  where
    false-true : false ≡ true → ⊥
    false-true e = ground arith

rise_through :
    (v : Version) (c : Boundary) (bounds : List Boundary)
    → IsCanonical v
    → Canonical (c ∷ bounds)
    → compare v c.version ≢ gt
    → All (λ d. compare c.version d.version ≢ gt) bounds
    → All (λ d. compare v d.version ≢ gt) bounds
rise_through v c [] p can h up = tt
rise_through v c (d ∷ bounds) p can h up = (
  compare-le_trans v c.version d.version p can.0 can.1.0 h up.0,
  rise_through v c bounds p (can.0, can.1.1) h up.1,
)

-- The sort puts them in rising order.
Rising-insert_by :
    (b : Boundary) (bounds : List Boundary)
    → IsCanonical b.version
    → Canonical bounds
    → Rising bounds
    → Rising (insert_by before b bounds)
Rising-insert_by b [] p can up = (tt, tt)
Rising-insert_by b (c ∷ bounds) p can up = elim (Bool-cases (before c b)) [
  | inr here ↦
      let first : compare b.version c.version ≢ gt =
        ground (arith, compare-swap c.version b.version) in
      rw here ((first, rise_through b.version c bounds p can first up.0), up)
  | inl later ↦
      let first : compare c.version b.version ≢ gt = ground arith in
      rw later (All-insert_by _ before b bounds first up.0, Rising-insert_by b bounds p can.1 up.1)
]

pub Canonical-sort_by :
    (bounds : List Boundary) → Canonical bounds → Canonical (sort_by before bounds)
Canonical-sort_by [] can = tt
Canonical-sort_by (b ∷ bounds) can =
    All-insert_by (λ c. IsCanonical c.version) before b (sort_by before bounds) can.0
      (Canonical-sort_by bounds can.1)

pub Rising-sort_by : (bounds : List Boundary) → Canonical bounds → Rising (sort_by before bounds)
Rising-sort_by [] can = tt
Rising-sort_by (b ∷ bounds) can =
    Rising-insert_by b (sort_by before bounds) can.0 (Canonical-sort_by bounds can.1)
      (Rising-sort_by bounds can.1)
