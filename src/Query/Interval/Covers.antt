-- ===== src/Query/Interval/Covers.antt =====
-- `Covers`, `Intersect` and `Contains` of internal/query/interval.go against the instants that the
-- spans hold.
use keyholders.Base.{
  ℕ, ◌≤◌, ◌<◌, ◌≡◌, ◌↔◌, inl, inr, true, false, ◌&&◌, ltb, leb, refl, [], ◌∷◌, arith, Bool-cases,
}
use keyholders.Query.Interval.{
  Interval, Set, intersect, contains, covers_from, covers, holds_at, After, IsMaximal,
}

-- An instant lies in the intersection exactly when it lies in both spans.
pub contains-intersect :
    (i o : Interval) (t : ℕ) → contains (intersect i o) t ≡ (contains i t && contains o t)
contains-intersect i o t = ground arith

pub After-le : (s : Set) {m n : ℕ} → m ≤ n → After n s → After m s
After-le [] h a = tt
After-le (i ∷ s) h a = (omega arith, After-le s h a.1)

pub holds_at-After : (s : Set) (n t : ℕ) → After n s → t ≤ n → holds_at s t ≡ false
holds_at-After [] n t a h = ground arith
holds_at-After (i ∷ s) n t a h = ground (arith, holds_at-After s n t a.1 h)

covers_from_yes :
    (s : Set) (i : Interval) (t : ℕ)
    → IsMaximal s
    → covers_from s i ≡ true
    → contains i t ≡ true
    → holds_at s t ≡ true
unfolding covers_from
covers_from_yes [] i t m c h = ground arith
covers_from_yes (have ∷ s) i t m c h =
    ground (arith, covers_from_yes s i t m.2, covers_from_yes s (record i { from = have.to }) t m.2)

-- Where the walk fails, some instant of the span is missing from the set.
covers_from_gap :
    (s : Set) (i : Interval)
    → IsMaximal s
    → i.from < i.to
    → covers_from s i ≡ false
    → (t : ℕ) × (contains i t ≡ true) × (holds_at s t ≡ false)
unfolding covers_from
covers_from_gap [] i m h c = (i.from, ground arith, refl)
covers_from_gap (have ∷ s) i m h c = elim (Bool-cases (leb have.to i.from)) [
  | inl before ↦
      let (t, inside, missing) = covers_from_gap s i m.2 h (ground arith) in
      (t, inside, ground arith)
  | inr reaches ↦ elim (Bool-cases (ltb i.from have.from)) [
    | inl gap ↦ (i.from, ground arith, ground (arith, holds_at-After s have.to i.from m.1))
    | inr starts ↦
        let rest =
          covers_from_gap s (record i { from = have.to }) m.2 (ground arith) (ground arith) in
        (rest.0, ground (arith, rest.1), ground (arith, rest.1, rest.2))
  ]
]

pub covers_gap :
    (s : Set) (i : Interval)
    → IsMaximal s
    → covers s i ≡ false
    → (t : ℕ) × (contains i t ≡ true) × (holds_at s t ≡ false)
unfolding covers
covers_gap s i m c = covers_from_gap s i m (ground arith) (ground arith)

pub covers_yes :
    (s : Set) (i : Interval) (t : ℕ)
    → IsMaximal s
    → covers s i ≡ true
    → contains i t ≡ true
    → holds_at s t ≡ true
unfolding covers
covers_yes s i t m c h = covers_from_yes s i t m (ground arith) h

-- On a maximal set, `Covers` answers yes exactly when every instant of the span is in the set.
pub covers_iff :
    (s : Set) (i : Interval)
    → IsMaximal s
    → (covers s i ≡ true) ↔ ((t : ℕ) → contains i t ≡ true → holds_at s t ≡ true)
covers_iff s i m = (
  λ c t h. covers_yes s i t m c h,
  λ all. elim (Bool-cases (covers s i)) [
    | inl c ↦ c
    | inr c ↦ let (t, inside, missing) = covers_gap s i m c in cc (all t inside)
  ],
)
