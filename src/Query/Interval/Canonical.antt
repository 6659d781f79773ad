-- ===== src/Query/Interval/Canonical.antt =====
-- A maximal set of internal/query/interval.go is determined by the instants that it holds, so the
-- order of insertions does not matter.
use keyholders.Base.{
  ℕ, ◌≤◌, ◌<◌, ◌≡◌, inl, inr, refl, sym, ◌∙◌, true, false, [], ◌∷◌, arith, ltb, leb, Bool-cases,
}
use keyholders.Query.Interval.{Interval, Set, insert, holds_at, IsMaximal}
use keyholders.Query.Interval.Covers.{holds_at-After}
use keyholders.Query.Interval.Insert.{insert-IsMaximal, holds_at-insert}

first_instant : (i : Interval) (s : Set) → IsMaximal (i ∷ s) → holds_at (i ∷ s) i.from ≡ true
first_instant i s m = ground arith

no_earlier :
    (i : Interval) (s : Set) (t : ℕ) → IsMaximal (i ∷ s) → t < i.from → holds_at (i ∷ s) t ≡ false
no_earlier i s t m h = ground (arith, holds_at-After s i.to t m.1)

first_gap : (i : Interval) (s : Set) → IsMaximal (i ∷ s) → holds_at (i ∷ s) i.to ≡ false
first_gap i s m = ground (arith, holds_at-After s i.to i.to m.1)

abbrev Agree : Set → Set → Type 0
Agree s u = (t : ℕ) → holds_at s t ≡ holds_at u t

from-le :
    (i : Interval) (s : Set) (j : Interval) (u : Set)
    → IsMaximal (i ∷ s)
    → IsMaximal (j ∷ u)
    → Agree (i ∷ s) (j ∷ u)
    → i.from ≤ j.from
from-le i s j u m n e = elim (Bool-cases (ltb j.from i.from)) [
  | inl h ↦ cc (no_earlier i s j.from m (ground arith), first_instant j u n, e j.from)
  | inr h ↦ ground arith
]

to-le :
    (i : Interval) (s : Set) (j : Interval) (u : Set)
    → IsMaximal (i ∷ s)
    → IsMaximal (j ∷ u)
    → Agree (i ∷ s) (j ∷ u)
    → i.from ≡ j.from
    → j.to ≤ i.to
to-le i s j u m n e p = elim (Bool-cases (ltb i.to j.to)) [
  | inl h ↦ ground (arith, first_gap i s m, e i.to)
  | inr h ↦ ground arith
]

rest_agrees :
    (i : Interval) (s : Set) (j : Interval) (u : Set)
    → IsMaximal (i ∷ s)
    → IsMaximal (j ∷ u)
    → i.to ≡ j.to
    → Agree (i ∷ s) (j ∷ u)
    → Agree s u
rest_agrees i s j u m n q e t = elim (Bool-cases (leb t i.to)) [
  | inl h ↦
      holds_at-After s i.to t m.1 (ground arith) ∙ sym (holds_at-After u j.to t n.1 (ground arith))
  | inr h ↦ ground (arith, e t)
]

-- Two maximal sets that hold the same instants are equal.
pub eq_of_holds_at :
    (s u : Set) → IsMaximal s → IsMaximal u → ((t : ℕ) → holds_at s t ≡ holds_at u t) → s ≡ u
eq_of_holds_at [] [] m n e = refl
eq_of_holds_at [] (j ∷ u) m n e = cc (first_instant j u n, e j.from)
eq_of_holds_at (i ∷ s) [] m n e = cc (first_instant i s m, e i.from)
eq_of_holds_at (i ∷ s) (j ∷ u) m n e =
    let back = λ (t : ℕ). sym (e t) in
    let from : i.from ≡ j.from = omega (arith, from-le i s j u m n e, from-le j u i s n m back) in
    let to : i.to ≡ j.to =
      omega (arith, to-le i s j u m n e from, to-le j u i s n m back (sym from)) in
    let same : i ≡ j = ground arith in
    let rest = eq_of_holds_at s u m.2 n.2 (rest_agrees i s j u m n to e) in cc

-- Two insertions into a maximal set give the same set in either order.
pub insert_comm :
    (s : Set) (i j : Interval)
    → IsMaximal s
    → (insert (insert s i).0 j).0 ≡ (insert (insert s j).0 i).0
insert_comm s i j m =
    let mi = insert-IsMaximal s i m in
    let mj = insert-IsMaximal s j m in
    eq_of_holds_at _ _ (insert-IsMaximal _ j mi) (insert-IsMaximal _ i mj) λ t. ground (
      arith,
      holds_at-insert (insert s i).0 j t mi,
      holds_at-insert (insert s j).0 i t mj,
      holds_at-insert s i t m,
      holds_at-insert s j t m,
    )
