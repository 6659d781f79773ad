-- ===== src/Query/Interval.antt =====
-- internal/query/interval.go: half-open spans of time and disjoint sets of them. The seconds are
-- natural numbers: every window that the program stores lies between 0 and `open_interval`.
pub mod Covers
pub mod Insert
pub mod Canonical
pub mod Measure
use keyholders.Base.{
  ℕ, ◌+◌, ◌-◌, min, max, Bool, true, false, ◌&&◌, ◌||◌, ltb, leb, if◌then◌else◌, List, [], ◌∷◌,
  ◌++◌, ◌<◌, sort_by,
}

-- 2100-01-01, the end of a span that has not ended.
abbrev pub open_interval : ℕ
open_interval = 4102444800

pub record Interval : Type 0 where
  pub from : ℕ
  pub to : ℕ

-- The identity of `intersect` on the spans that the program stores.
abbrev pub always : Interval
always = record { from = 0; to = open_interval }

-- The one instant `t`.
abbrev pub at : ℕ → Interval
at t = record { from = t; to = t + 1 }

abbrev pub empty : Interval → Bool
empty i = leb i.to i.from

abbrev pub intersect : Interval → Interval → Interval
intersect i o = record { from = max i.from o.from; to = min i.to o.to }

abbrev pub contains : Interval → ℕ → Bool
contains i t = leb i.from t && ltb t i.to

abbrev pub Set : Type 0
Set = List Interval

-- The walk of `Covers`: `i` is the part that still needs cover.
unfoldable pub covers_from : Set → Interval → Bool
covers_from [] i = false
covers_from (have ∷ s) i =
    let skip = covers_from s i in
    let advance = covers_from s (record i { from = have.to }) in
    if leb have.to i.from
    then skip
    else if ltb i.from have.from
    then false
    else if leb i.to have.to
    then true
    else advance

unfoldable pub covers : Set → Interval → Bool
covers s i = if empty i then true else covers_from s i

-- The least span that holds both of two touching ones.
abbrev pub join : Interval → Interval → Interval
join i o = record { from = min i.from o.from; to = max i.to o.to }

-- The loop of `Insert`: what touches `merged` is joined to it, the rest goes to `out`.
unfoldable pub coalesce : Set → Interval → Set → Set
coalesce [] merged out = out ++ merged ∷ []
coalesce (have ∷ s) merged out =
    let apart = coalesce s merged (out ++ have ∷ []) in
    let joined = coalesce s (join merged have) out in
    if ltb have.to merged.from || ltb merged.to have.from then apart else joined

-- The callback of the sort.
abbrev pub starts_before : Interval → Interval → Bool
starts_before a b = ltb a.from b.from

-- The new set, and whether anything was added.
unfoldable pub insert : Set → Interval → Set × Bool
insert s i =
    if empty i || covers s i then (s, false) else (sort_by starts_before (coalesce s i []), true)

abbrev pub width : Set → ℕ
width [] = 0
width (i ∷ s) = (i.to - i.from) + width s

abbrev pub earliest : Set → ℕ
earliest [] = 0
earliest (i ∷ s) = i.from

-- The inner loop of `ReachedAt`: some member contains the instant.
abbrev pub holds_at : Set → ℕ → Bool
holds_at [] t = false
holds_at (i ∷ s) t = contains i t || holds_at s t

-- The invariant: the members are non-empty, sorted, and no two touch.
abbrev pub After : ℕ → Set → Type 0
After n [] = Unit
After n (i ∷ s) = (n < i.from) × After n s

abbrev pub IsMaximal : Set → Type 0
IsMaximal [] = Unit
IsMaximal (i ∷ s) = (i.from < i.to) × After i.to s × IsMaximal s
