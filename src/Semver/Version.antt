-- ===== src/Semver/Version.antt =====
-- internal/semver/version.go. The one error of the package, `ErrInvalidVersion`, is `none`; the
-- results -1, 0 and 1 of a comparison are `lt`, `eq` and `gt`.
pub mod Order
pub mod Total
pub mod RoundTrip
use Prim.Native.Nat.{Ordering, lt, eq, gt}
use keyholders.Base.{
  ℕ, Bool, true, false, ◌&&◌, ◌||◌, ltb, ◌==◌, if◌then◌else◌, List, [], ◌∷◌, ◌++◌, Option, none,
  some, Text, text_eq, text_lt, length, trim_space, trim_byte, cut, split, join, all_digits,
  parse_uint, format_uint,
}

-- Numbers are below 2 ^ 64.
pub record Version : Type 0 where
  pub major : ℕ
  pub minor : ℕ
  pub patch : ℕ
  pub pre : List Text
  pub build : Text

-- The zero value.
abbrev pub zero_version : Version
zero_version = record { major = 0; minor = 0; patch = 0; pre = []; build = [] }

abbrev pub is_empty {ℓ} : {A : Type ℓ} → List A → Bool
is_empty [] = true
is_empty (x ∷ xs) = false

abbrev has_empty : List Text → Bool
has_empty [] = false
has_empty (s ∷ parts) = is_empty s || has_empty parts

-- A leading zero is refused before the number is read.
unfoldable pub parse_numeric : Text → Option ℕ
unfolding parse_uint
parse_numeric [] = none
parse_numeric (c ∷ s) = if ltb 1 (length (c ∷ s)) && c == b'0' then none else parse_uint (c ∷ s)

-- The three numbers, with the parts already cut off.
unfoldable pub parse_parts : List Text → List Text → Text → Option Version
unfolding parse_numeric
parse_parts (a ∷ b ∷ c ∷ []) pre build = elim (parse_numeric a) [
  | none ↦ none
  | some major ↦ elim (parse_numeric b) [
    | none ↦ none
    | some minor ↦ elim (parse_numeric c) [
      | none ↦ none
      | some patch ↦
          some (record { major = major; minor = minor; patch = patch; pre = pre; build = build })
    ]
  ]
]
parse_parts _ pre build = none

-- The identifiers behind the dash.
unfoldable pub parse_pre : Text → Option Text → Text → Option Version
unfolding parse_parts split
parse_pre s none build = parse_parts (split b'.' s) [] build
parse_pre s (some pre) build =
    if is_empty pre
    then none
    else if has_empty (split b'.' pre)
    then none
    else parse_parts (split b'.' s) (split b'.' pre) build

abbrev or_empty : Option Text → Text
or_empty none = []
or_empty (some s) = s

unfoldable pub parse_body : Text → Option Version
unfolding cut parse_pre
parse_body s =
    let (rest, build) = cut b'+' s in
    let (core, pre) = cut b'-' rest in
    if is_empty s then none else parse_pre core pre (or_empty build)

unfoldable pub parse : Text → Option Version
unfolding parse_body trim_space trim_byte
parse s = parse_body (trim_byte b'=' (trim_byte b'v' (trim_space s)))

abbrev pub is_prerelease : Version → Bool
is_prerelease v = elim (is_empty v.pre) [ true ↦ false | false ↦ true ]

abbrev pub cmp_uint : ℕ → ℕ → Ordering
cmp_uint a b = if ltb a b then lt else if ltb b a then gt else eq

-- The number that an identifier spells, unless it is no number or too large.
unfoldable pub numeric_ident : Text → Option ℕ
unfolding parse_uint
numeric_ident [] = none
numeric_ident (c ∷ s) = if all_digits (c ∷ s) then parse_uint (c ∷ s) else none

-- Two different identifiers.
unfoldable pub compare_ident : Text → Text → Ordering
unfolding numeric_ident
compare_ident x y = elim (numeric_ident x) [
  | some n ↦ elim (numeric_ident y) [ some m ↦ cmp_uint n m | none ↦ lt ]
  | none ↦ elim (numeric_ident y) [ some m ↦ gt | none ↦ if text_lt x y then lt else gt ]
]

-- The loop over both lists; where it ends, the longer list wins.
unfoldable pub compare_idents : List Text → List Text → Ordering
unfolding compare_ident
compare_idents [] [] = eq
compare_idents [] (y ∷ b) = lt
compare_idents (x ∷ a) [] = gt
compare_idents (x ∷ a) (y ∷ b) =
    let rest = compare_idents a b in if text_eq x y then rest else compare_ident x y

-- No identifiers at all rank above any.
unfoldable pub compare_pre : List Text → List Text → Ordering
unfolding compare_idents
compare_pre [] [] = eq
compare_pre [] (y ∷ b) = gt
compare_pre (x ∷ a) [] = lt
compare_pre (x ∷ a) (y ∷ b) = compare_idents (x ∷ a) (y ∷ b)

-- `if c := …; c != 0 { return c }`
abbrev pub or_else : Ordering → Ordering → Ordering
or_else lt o = lt
or_else gt o = gt
or_else eq o = o

unfoldable pub compare : Version → Version → Ordering
compare v o = or_else (cmp_uint v.major o.major) (
    or_else (cmp_uint v.minor o.minor)
      (or_else (cmp_uint v.patch o.patch) (compare_pre v.pre o.pre)))

unfoldable pub to_string : Version → Text
unfolding format_uint join
to_string v =
    let core = format_uint v.major ++ b'.' ∷ (format_uint v.minor ++ b'.' ∷ format_uint v.patch) in
    let pre = if is_prerelease v then b'-' ∷ join b'.' v.pre else [] in
    let build = if is_empty v.build then [] else b'+' ∷ v.build in core ++ pre ++ build
