-- ===== src/Typosquat/Normalize.antt =====
-- internal/typosquat/normalize.go, on names of ASCII bytes, as npm has them.
pub mod Folded
use keyholders.Base.{
  ℕ, ◌+◌, Bool, true, false, ◌&&◌, ◌||◌, leb, ◌==◌, if◌then◌else◌, List, [], ◌∷◌, ◌++◌, Option,
  none, some, Text, cut, map,
}
use keyholders.Semver.Version.{is_empty}

abbrev pub lower : ℕ → ℕ
lower c = if leb b'A' c && leb c b'Z' then c + 32 else c

abbrev pub to_lower : Text → Text
to_lower s = map lower s

-- A single character that stands for a letter.
abbrev pub letter_of : ℕ → ℕ
letter_of c =
    if c == b'0'
    then b'o'
    else if c == b'1'
    then b'l'
    else if c == b'3'
    then b'e'
    else if c == b'4'
    then b'a'
    else if c == b'5'
    then b's'
    else if c == b'7'
    then b't'
    else c

-- `homoglyphs.Replace`: from the left and without overlap.
unfoldable pub replace_homoglyphs : Text → Text
replace_homoglyphs [] = []
replace_homoglyphs (c ∷ []) = letter_of c ∷ []
replace_homoglyphs (c ∷ d ∷ s) =
    let rest = replace_homoglyphs (d ∷ s) in
    let after_pair = replace_homoglyphs s in
    if c == b'r' && d == b'n'
    then b'm' ∷ after_pair
    else if c == b'v' && d == b'v'
    then b'w' ∷ after_pair
    else letter_of c ∷ rest

abbrev pub is_separator : ℕ → Bool
is_separator c = c == b'-' || (c == b'_' || c == b'.')

unfoldable pub drop_separators : Text → Text
drop_separators [] = []
drop_separators (c ∷ s) = let rest = drop_separators s in if is_separator c then rest else c ∷ rest

abbrev pub fold_name : Text → Text
fold_name s = drop_separators (replace_homoglyphs (to_lower s))

-- The scope in front of the first slash is only put in lower case.
unfoldable pub normalize : Text → Text
normalize name =
    let (scope, after) = cut b'/' name in
    elim after [
      | none ↦ fold_name scope
      | some rest ↦
          if is_empty scope then fold_name rest else to_lower scope ++ b'/' ∷ fold_name rest
    ]
