-- ===== src/Query/Interval/Insert.antt =====
-- `Insert` of internal/query/interval.go: the invariant, the instants that it adds, and its flag.
use keyholders.Base.{
  ℕ, ◌<◌, ◌≡◌, ◌↔◌, ◌⊎◌, inl, inr, refl, true, false, ◌||◌, [], ◌∷◌, ◌++◌, arith, ltb,
  if◌then◌else◌, Bool-cases, insert_by, sort_by,
}
use mathlib.Core.List.{append_assoc}
use keyholders.Query.Interval.{
  Interval, Set, empty, contains, covers, join, coalesce, starts_before, insert, holds_at, After,
  IsMaximal,
}
use keyholders.Query.Interval.Covers.{After-le, covers_yes, covers_gap}

-- The same insertion as one pass that keeps the order, with no sort.
pub place : Interval → Set → Set
place i [] = i ∷ []
place i (have ∷ s) =
    let later = place i s in
    let joined = place (join i have) s in
    if ltb have.to i.from then have ∷ later else if ltb i.to have.from then i ∷ have ∷ s else joined

After-place : (n : ℕ) (i : Interval) (s : Set) → n < i.from → After n s → After n (place i s)
unfolding place
After-place n i [] h a = (h, tt)
After-place n i (have ∷ s) h a =
    ground (arith, After-place n i s h a.1, After-place n (join i have) s)

place-first :
    (i : Interval) (s : Set) → i.from < i.to → IsMaximal s → After i.to s → place i s ≡ i ∷ s
unfolding place
place-first i [] h m a = refl
place-first i (have ∷ s) h m a = ground arith

pub place-IsMaximal : (i : Interval) (s : Set) → i.from < i.to → IsMaximal s → IsMaximal (place i s)
unfolding place
place-IsMaximal i [] h m = (h, tt, tt)
place-IsMaximal i (have ∷ s) h m = ground (
  arith,
  After-place have.to i s,
  After-le s {m = i.to} {n = have.to},
  place-IsMaximal i s,
  place-IsMaximal (join i have) s,
)

pub holds_at-place :
    (i : Interval) (s : Set) (t : ℕ)
    → i.from < i.to
    → IsMaximal s
    → holds_at (place i s) t ≡ (contains i t || holds_at s t)
unfolding place
holds_at-place i [] t h m = refl
holds_at-place i (have ∷ s) t h m =
    ground (arith, holds_at-place i s t, holds_at-place (join i have) s t)

-- The accumulator of the loop.
coalesce-append : (s : Set) (i : Interval) (out : Set) → coalesce s i out ≡ out ++ coalesce s i []
unfolding coalesce
coalesce-append [] i out = refl
coalesce-append (have ∷ s) i out = ground (
  arith,
  coalesce-append s i (out ++ have ∷ []),
  coalesce-append s i (have ∷ []),
  coalesce-append s (join i have) out,
  append_assoc out (have ∷ []) (coalesce s i []),
)

insert_by-After : (i : Interval) (s : Set) → After i.from s → insert_by starts_before i s ≡ i ∷ s
insert_by-After i [] a = refl
insert_by-After i (have ∷ s) a = ground arith

sort-coalesce :
    (s : Set) (i : Interval)
    → i.from < i.to
    → IsMaximal s
    → sort_by starts_before (coalesce s i []) ≡ place i s
unfolding coalesce place
sort-coalesce [] i h m = refl
sort-coalesce (have ∷ s) i h m = elim (Bool-cases (ltb have.to i.from)) [
  | inl before ↦
      rw (before, coalesce-append s i (have ∷ []), sort-coalesce s i h m.2)
        (insert_by-After have (place i s)
          (After-place have.from i s (ground arith) (After-le s (ground arith) m.1)))
  | inr reaches ↦ elim (Bool-cases (ltb i.to have.from)) [
    | inl after ↦
        let later = After-le s {m = i.to} (ground arith) m.1 in
        rw
          (
            reaches,
            after,
            coalesce-append s i (have ∷ []),
            sort-coalesce s i h m.2,
            place-first i s h m.2 later,
          )
          (ground (arith, insert_by-After have s (After-le s (ground arith) m.1)))
    | inr touch ↦ rw (reaches, touch) (sort-coalesce s (join i have) (ground arith) m.2)
  ]
]

insert-cases :
    (s : Set) (i : Interval)
    → IsMaximal s
    → ((insert s i ≡ (s, false)) × ((empty i || covers s i) ≡ true))
      ⊎ ((insert s i ≡ (place i s, true)) × (i.from < i.to) × (covers s i ≡ false))
unfolding insert
insert-cases s i m = elim (Bool-cases (empty i || covers s i)) [
  | inl skip ↦ inl (rw skip refl, skip)
  | inr add ↦ inr (rw (add, sort-coalesce s i (ground arith) m) refl, ground arith, ground arith)
]

-- `Insert` keeps a maximal set maximal: its members are non-empty, sorted, and no two touch.
pub insert-IsMaximal : (s : Set) (i : Interval) → IsMaximal s → IsMaximal (insert s i).0
insert-IsMaximal s i m = elim (insert-cases s i m) [
  | inl (same, _) ↦ rw same m
  | inr (added, h, _) ↦ rw added (place-IsMaximal i s h m)
]

-- After `Insert` into a maximal set it holds exactly the instants that it held and those of the
-- span.
pub holds_at-insert :
    (s : Set) (i : Interval) (t : ℕ)
    → IsMaximal s
    → holds_at (insert s i).0 t ≡ (contains i t || holds_at s t)
holds_at-insert s i t m = elim (insert-cases s i m) [
  | inl (same, skip) ↦ rw same (ground (arith, covers_yes s i t m))
  | inr (added, h, _) ↦ rw added (holds_at-place i s t h m)
]

-- `Insert` into a maximal set reports an addition exactly when it missed some instant of the span.
pub insert_added_iff :
    (s : Set) (i : Interval)
    → IsMaximal s
    → ((insert s i).1 ≡ true) ↔ ((t : ℕ) × (contains i t ≡ true) × (holds_at s t ≡ false))
insert_added_iff s i m = elim (insert-cases s i m) [
  | inl (same, skip) ↦ rw same (λ e. cc, λ (t, inside, missing). ground (arith, covers_yes s i t m))
  | inr (added, h, c) ↦ rw added (λ e. covers_gap s i m c, λ e. refl)
]

-- Without an addition the set is as it was.
pub insert_unchanged : (s : Set) (i : Interval) → (insert s i).1 ≡ false → (insert s i).0 ≡ s
unfolding insert
insert_unchanged s i h = ground arith
