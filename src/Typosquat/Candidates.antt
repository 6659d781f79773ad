-- ===== src/Typosquat/Candidates.antt =====
-- internal/typosquat/candidates.go. A popularity ratio is kept as its two ranks: the program
-- divides them as floats.
pub mod Sound
use mathlib.Core.List.{foldl}
use keyholders.Base.{
  ℕ, zero, suc, ◌-◌, ◌^◌, Bool, true, false, ◌&&◌, ◌||◌, ltb, if◌then◌else◌, List, [], ◌∷◌, ◌++◌,
  Option, none, some, Text, Table, lookup, text_eq, text_lt, map, sort_by, take,
}
use keyholders.Typosquat.Distance.{edit_distance}
use keyholders.Typosquat.Normalize.{normalize}

pub record Candidate : Type 0 where
  pub popular : Text
  pub lookalike : Text
  pub distance : ℕ
  pub popular_rank : ℕ
  pub lookalike_rank : ℕ

abbrev pub window : ℕ
window = 20

-- The largest int.
abbrev pub unranked : ℕ
unranked = 9223372036854775807

pub record Entry : Type 0 where
  pub name : Text
  pub normalized : Text

abbrev pub entry : Text → Entry
entry n = record { name = n; normalized = normalize n }

-- The callback of the sort.
abbrev pub sorts_before : Entry → Entry → Bool
sorts_before a b = text_lt a.normalized b.normalized

abbrev pub pair_key : Text → Text → Text × Text
pair_key a b = if text_lt a b then (a, b) else (b, a)

abbrev pub rank_of : Table ℕ → Text → ℕ
rank_of ranks name = elim (lookup name ranks) [ some r ↦ r | none ↦ unranked ]

unfoldable pub orient : Text → Text → ℕ → Table ℕ → Candidate
orient a b d ranks =
    let ra = rank_of ranks a in
    let rb = rank_of ranks b in
    if ltb rb ra
    then record { popular = b; lookalike = a; distance = d; popular_rank = rb; lookalike_rank = ra }
    else record { popular = a; lookalike = b; distance = d; popular_rank = ra; lookalike_rank = rb }

-- A Go map from pairs to true.
abbrev pub has_pair : List (Text × Text) → Text × Text → Bool
has_pair [] k = false
has_pair (p ∷ seen) k = (text_eq p.0 k.0 && text_eq p.1 k.1) || has_pair seen k

-- The variables of the loops.
pub record Search : Type 0 where
  pub seen : List (Text × Text)
  pub out : List Candidate

-- The body of the inner loop.
unfoldable pub consider : Table ℕ → ℕ → Entry → Search → Entry → Search
consider ranks max_distance a s b =
    let d = edit_distance a.normalized b.normalized in
    let pair = pair_key a.name b.name in
    if text_eq a.name b.name
    then s
    else if ltb max_distance d
    then s
    else if has_pair s.seen pair
    then s
    else record { seen = pair ∷ s.seen; out = s.out ++ orient a.name b.name d ranks ∷ [] }

-- The outer loop: each entry with the `window` entries behind it.
unfoldable pub scan : Table ℕ → ℕ → List Entry → Search → Search
scan ranks max_distance [] s = s
scan ranks max_distance (a ∷ entries) s =
    scan ranks max_distance entries (foldl (consider ranks max_distance a) s (take window entries))

unfoldable pub find : List Text → Table ℕ → ℕ → List Candidate
find names ranks max_distance =
    (scan ranks max_distance (sort_by sorts_before (map entry names))
      (record { seen = []; out = [] })).out
