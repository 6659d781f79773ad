-- ===== src/Examples/Intervals.antt =====
-- internal/query/interval.go at concrete spans.
use keyholders.Base.{ℕ, ◌≡◌, ◌↔◌, refl, true, false, ◌||◌, [], ◌∷◌, arith}
use keyholders.Query.Interval.{
  Interval, Set, contains, covers, covers_from, coalesce, insert, holds_at, IsMaximal,
}
use keyholders.Query.Interval.Covers.{covers_iff}
use keyholders.Query.Interval.Insert.{insert-IsMaximal, holds_at-insert}

abbrev span : ℕ → ℕ → Interval
span a b = record { from = a; to = b }

abbrev two_spans : Set
two_spans = span 10 20 ∷ span 30 40 ∷ []

two_spans-IsMaximal : IsMaximal two_spans
two_spans-IsMaximal = omega arith

-- A span that bridges the gap leaves one member.
insert-bridge : insert two_spans (span 20 30) ≡ (span 10 40 ∷ [], true)
unfolding insert covers covers_from coalesce
insert-bridge = refl

insert-covered : insert two_spans (span 12 18) ≡ (two_spans, false)
unfolding insert covers covers_from
insert-covered = refl

covers-gap : covers two_spans (span 15 35) ≡ false
unfolding covers covers_from
covers-gap = refl

covers_iff_example :
    (covers two_spans (span 12 18) ≡ true)
    ↔ ((t : ℕ) → contains (span 12 18) t ≡ true → holds_at two_spans t ≡ true)
covers_iff_example = covers_iff two_spans (span 12 18) two_spans-IsMaximal

insert-IsMaximal_example : IsMaximal (insert two_spans (span 15 35)).0
insert-IsMaximal_example = insert-IsMaximal two_spans (span 15 35) two_spans-IsMaximal

holds_at-insert_example :
    holds_at (insert two_spans (span 15 35)).0 25
    ≡ (contains (span 15 35) 25 || holds_at two_spans 25)
holds_at-insert_example = holds_at-insert two_spans (span 15 35) 25 two_spans-IsMaximal
