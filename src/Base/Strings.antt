-- ===== src/Base/Strings.antt =====
-- What the program uses of Go's strings and strconv packages, over bytes. White space is the ASCII
-- white space of `strings.TrimSpace`; that of other scripts does not occur in registry metadata.
use Prim.Native.Nat.{ℕ, zero, suc, ◌+◌, ◌-◌, ◌*◌, ◌/◌, ◌%◌, ◌^◌}
use mathlib.Core.Bool.{Bool, true, false, ◌&&◌, ◌||◌}
use mathlib.Core.Option.{Option, none, some}
use mathlib.Core.List.{List, [], ◌∷◌, ◌++◌, reverse}
use keyholders.Base.Tests.{ltb, leb, ◌==◌, if◌then◌else◌}
use keyholders.Base.Texts.{Text}

unfoldable pub is_space : ℕ → Bool
is_space c = c == 32 || (leb 9 c && leb c 13)

unfoldable pub trim_left : Text → Text
unfolding is_space
trim_left [] = []
trim_left (c ∷ s) = let rest = trim_left s in if is_space c then rest else c ∷ s

unfoldable pub trim_right : Text → Text
unfolding is_space
trim_right [] = []
trim_right (c ∷ s) = elim (trim_right s) [
  | [] ↦ if is_space c then [] else c ∷ []
  | d ∷ rest ↦ c ∷ d ∷ rest
]

-- `strings.TrimSpace`
unfoldable pub trim_space : Text → Text
unfolding trim_left trim_right
trim_space s = trim_right (trim_left s)

-- `strings.TrimPrefix` for a prefix of one byte.
unfoldable pub trim_byte : ℕ → Text → Text
trim_byte c [] = []
trim_byte c (d ∷ s) = if d == c then s else d ∷ s

-- The text before the first `c`, and the text after it if there is one: `strings.IndexByte` with
-- the two slices.
unfoldable pub cut : ℕ → Text → Text × Option Text
cut c [] = ([], none)
cut c (d ∷ s) =
    let (before, after) = cut c s in if d == c then ([], some s) else (d ∷ before, after)

-- What stands before and behind the last `c`.
unfoldable pub cut_last : ℕ → Text → Option (Text × Text)
cut_last c [] = none
cut_last c (d ∷ s) = elim (cut_last c s) [
  | some (before, behind) ↦ some (d ∷ before, behind)
  | none ↦ if d == c then some ([], s) else none
]

-- `strings.Split` at one byte.
unfoldable pub split : ℕ → Text → List Text
split c [] = [] ∷ []
split c (d ∷ s) = elim (split c s) [
  | [] ↦ []
  | first ∷ rest ↦ if d == c then [] ∷ first ∷ rest else (d ∷ first) ∷ rest
]

-- `strings.Join` with one byte.
unfoldable pub join : ℕ → List Text → Text
join c [] = []
join c (s ∷ []) = s
join c (s ∷ u ∷ rest) = s ++ c ∷ join c (u ∷ rest)

-- `strings.Fields`: `word` is the field under construction.
unfoldable pub fields_from : Text → Text → List Text
unfolding is_space
fields_from word [] = elim word [ [] ↦ [] | c ∷ w ↦ (c ∷ w) ∷ [] ]
fields_from word (c ∷ s) =
    let inside = fields_from (word ++ c ∷ []) s in
    let outside = fields_from [] s in
    if is_space c then elim word [ [] ↦ outside | d ∷ w ↦ (d ∷ w) ∷ outside ] else inside

unfoldable pub fields : Text → List Text
unfolding fields_from
fields s = fields_from [] s

unfoldable pub has_prefix : Text → Text → Bool
has_prefix [] s = true
has_prefix (c ∷ p) [] = false
has_prefix (c ∷ p) (d ∷ s) = c == d && has_prefix p s

abbrev pub is_digit : ℕ → Bool
is_digit c = leb b'0' c && leb c b'9'

unfoldable pub all_digits : Text → Bool
all_digits [] = true
all_digits (c ∷ s) = is_digit c && all_digits s

unfoldable pub decimal : ℕ → Text → ℕ
decimal acc [] = acc
decimal acc (c ∷ s) = decimal (acc * 10 + (c - b'0')) s

abbrev pub u64_mod : ℕ
u64_mod = 2 ^ 64

-- `strconv.ParseUint(s, 10, 64)`; an error is `none`.
unfoldable pub parse_uint : Text → Option ℕ
unfolding all_digits decimal
parse_uint [] = none
parse_uint (c ∷ s) =
    if all_digits (c ∷ s) && ltb (decimal 0 (c ∷ s)) u64_mod then some (decimal 0 (c ∷ s)) else none

-- The digits of a number with the lowest first; `fuel` is any bound above their number.
unfoldable pub low_digits : ℕ → ℕ → Text
low_digits zero n = []
low_digits (suc fuel) n =
    let rest = low_digits fuel (n / 10) in (n % 10 + b'0') ∷ (if n / 10 == 0 then [] else rest)

-- `strconv.FormatUint(n, 10)`: twenty digits hold every 64-bit number.
unfoldable pub format_uint : ℕ → Text
unfolding low_digits
format_uint n = reverse (low_digits 20 n)

-- `strings.Split` at two equal bytes in a row.
unfoldable pub split_pair : ℕ → Text → List Text
split_pair c [] = [] ∷ []
split_pair c (d ∷ []) = (d ∷ []) ∷ []
split_pair c (d ∷ e ∷ s) =
    let after = split_pair c s in
    let rest = split_pair c (e ∷ s) in
    if d == c && e == c
    then [] ∷ after
    else elim rest [ [] ↦ [] | first ∷ others ↦ (d ∷ first) ∷ others ]
