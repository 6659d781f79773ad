-- ===== src/Query/Interval/Measure.antt =====
-- `Width` and `Earliest` of internal/query/interval.go: the width is the number of instants held.
use keyholders.Base.{
  ℕ, zero, suc, ◌+◌, ◌-◌, ◌≤◌, ◌<◌, ◌≡◌, refl, Bool, true, false, ◌||◌, [], ◌∷◌, arith,
  if◌then◌else◌, min, sym, ◌≢◌,
}
use keyholders.Query.Interval.{Interval, Set, contains, width, earliest, holds_at, IsMaximal}
use keyholders.Query.Interval.Covers.{holds_at-After}

-- How many instants before `n` pass the test.
pub count_below : ℕ → (ℕ → Bool) → ℕ
count_below zero test = 0
count_below (suc n) test = count_below n test + (if test n then 1 else 0)

-- Every member ends by `n`.
abbrev pub EndsBy : ℕ → Set → Type 0
EndsBy n [] = Unit
EndsBy n (i ∷ s) = (i.to ≤ n) × EndsBy n s

count_below-contains :
    (n : ℕ) (i : Interval) → i.from < i.to → count_below n (contains i) ≡ min n i.to - i.from
unfolding count_below
count_below-contains zero i h = omega arith
count_below-contains (suc n) i h = ground (arith, count_below-contains n i)

count_below-or :
    (n : ℕ) (p q : ℕ → Bool)
    → ((t : ℕ) → p t ≡ true → q t ≡ false)
    → count_below n (λ t. p t || q t) ≡ count_below n p + count_below n q
unfolding count_below
count_below-or zero p q h = refl
count_below-or (suc n) p q h = ground (arith, count_below-or n p q h, h n)

count_below-none : (n : ℕ) → count_below n (holds_at []) ≡ 0
unfolding count_below
count_below-none zero = refl
count_below-none (suc n) = ground (arith, count_below-none n)

-- The width of a maximal set that ends by `n` is the number of instants before `n` that it holds.
pub width-eq-count_below :
    (n : ℕ) (s : Set) → IsMaximal s → EndsBy n s → width s ≡ count_below n (holds_at s)
width-eq-count_below n [] m e = sym (count_below-none n)
width-eq-count_below n (i ∷ s) m e = omega (
  arith,
  count_below-or n (contains i) (holds_at s) (λ t h. ground (arith, holds_at-After s i.to t m.1)),
  count_below-contains n i m.0,
  width-eq-count_below n s m.2 e.1,
)

count_below-le : (n : ℕ) (p : ℕ → Bool) → count_below n p ≤ n
unfolding count_below
count_below-le zero p = omega arith
count_below-le (suc n) p = ground (arith, count_below-le n p)

-- So the sum never passes the end of time, and stays far below 2 ^ 63.
pub width-le : (n : ℕ) (s : Set) → IsMaximal s → EndsBy n s → width s ≤ n
width-le n s m e = omega (arith, width-eq-count_below n s m e, count_below-le n (holds_at s))

-- `Earliest` of a non-empty maximal set is an instant that it holds, and it holds none before.
pub earliest-least :
    (s : Set)
    → IsMaximal s
    → s ≢ []
    → (holds_at s (earliest s) ≡ true) × ((t : ℕ) → t < earliest s → holds_at s t ≡ false)
earliest-least [] m h = absurd (h refl)
earliest-least (i ∷ s) m h = (ground arith, λ t before. ground (arith, holds_at-After s i.to t m.1))
