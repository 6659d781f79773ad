-- ===== src/Lockfile/Words.antt =====
-- The functions on Go strings that internal/lockfile uses.
pub mod Trim
use keyholders.Base.{
  ℕ, Bool, true, false, ◌==◌, ◌||◌, ◌&&◌, if◌then◌else◌, List, [], ◌∷◌, Option, none, some, Text,
  drop, length, has_prefix, is_digit,
}

unfoldable pub trim_start : (ℕ → Bool) → Text → Text
trim_start p [] = []
trim_start p (c ∷ s) = let rest = trim_start p s in if p c then rest else c ∷ s

unfoldable pub trim_end : (ℕ → Bool) → Text → Text
trim_end p [] = []
trim_end p (c ∷ s) = elim (trim_end p s) [
  | [] ↦ if p c then [] else c ∷ []
  | d ∷ rest ↦ c ∷ d ∷ rest
]

abbrev pub is_quote : ℕ → Bool
is_quote c = c == b'\'' || c == b'"'

-- `strings.Trim(s, "'\"")`
abbrev pub trim_quotes : Text → Text
trim_quotes s = trim_end is_quote (trim_start is_quote s)

-- `strings.TrimSuffix` for a suffix of one byte.
unfoldable pub trim_suffix : ℕ → Text → Text
trim_suffix c [] = []
trim_suffix c (d ∷ []) = if d == c then [] else d ∷ []
trim_suffix c (d ∷ e ∷ s) = d ∷ trim_suffix c (e ∷ s)

unfoldable pub has_suffix : Text → Text → Bool
has_suffix p [] = has_prefix p [] && length p == 0
has_suffix p (c ∷ s) = (has_prefix p (c ∷ s) && length p == length (c ∷ s)) || has_suffix p s

-- The text after the last place where `marker` stands: `strings.LastIndex` with the slice behind it.
unfoldable pub after_last : Text → Text → Option Text
after_last marker [] = none
after_last marker (c ∷ s) = elim (after_last marker s) [
  | some behind ↦ some behind
  | none ↦ if has_prefix marker (c ∷ s) then some (drop (length marker) (c ∷ s)) else none
]

-- `strings.Contains` and `strings.TrimPrefix` for a text that is not empty.
abbrev pub contains_text : Text → Text → Bool
contains_text marker s = elim (after_last marker s) [ none ↦ false | some behind ↦ true ]

abbrev pub trim_prefix : Text → Text → Text
trim_prefix p s = if has_prefix p s then drop (length p) s else s

abbrev pub starts_with_digit : Text → Bool
starts_with_digit [] = false
starts_with_digit (c ∷ s) = is_digit c

-- A line that stands at the left margin.
abbrev pub at_margin : Text → Bool
at_margin [] = true
at_margin (c ∷ s) = if c == b' ' then false else if c == 9 then false else true
