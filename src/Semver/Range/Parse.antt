-- ===== src/Semver/Range/Parse.antt =====
-- The reading of a range in internal/semver/range.go. Every error of the package is
-- `ErrInvalidVersion` or wraps it, and is `none` here.
use keyholders.Base.{
  Bool, true, false, ◌||◌, leb, if◌then◌else◌, List, [], ◌∷◌, ◌++◌, Option, none, some, Text, bytes,
  text_eq, length, trim_space, trim_byte, cut, split, split_pair, fields, has_prefix, drop,
}
use keyholders.Semver.Version.{parse_numeric, is_empty}
use keyholders.Semver.Range.{
  op_lt, op_lte, op_gt, op_gte, Partial, ComparatorSet, Range, any_set, bound_set, exact_set,
  tilde_set, caret_set, hyphen_set,
}

unfoldable pub is_wildcard : Text → Bool
is_wildcard s =
    text_eq s [] || (text_eq s (bytes "x") || (text_eq s (bytes "X") || text_eq s (bytes "*")))

abbrev and_then {ℓ κ} : {A : Type ℓ} {B : Type κ} → Option A → (A → Option B) → Option B
and_then none f = none
and_then (some a) f = f a

-- The loop over the segments, one step for each index; a wildcard ends it.
unfoldable pub read_patch : Partial → List Text → Option Partial
unfolding is_wildcard parse_numeric
read_patch p [] = some p
read_patch p (c ∷ rest) =
    if is_wildcard c
    then some p
    else and_then (parse_numeric c) (λ n. some (record p { patch = n; has_patch = true }))

unfoldable pub read_minor : Partial → List Text → Option Partial
unfolding read_patch
read_minor p [] = some p
read_minor p (b ∷ rest) =
    if is_wildcard b
    then some p
    else and_then (parse_numeric b)
        (λ n. read_patch (record p { minor = n; has_minor = true }) rest)

unfoldable pub read_major : Partial → List Text → Option Partial
unfolding read_minor
read_major p [] = some p
read_major p (a ∷ rest) =
    if is_wildcard a
    then some p
    else and_then (parse_numeric a) (λ n. read_minor (record p { major = n }) rest)

-- An empty prerelease leaves the field unset.
abbrev identifiers : Option Text → List Text
identifiers none = []
identifiers (some pre) = if is_empty pre then [] else split b'.' pre

unfoldable pub parse_partial : Text → Option Partial
unfolding read_major cut split trim_space trim_byte
parse_partial text =
    let s = trim_byte b'v' (trim_space text) in
    let (rest, build) = cut b'+' s in
    let (core, pre) = cut b'-' rest in
    let parts = split b'.' core in
    if is_empty s
    then none
    else if leb 4 (length parts)
    then none
    else read_major
        (record {
          major = 0;
          minor = 0;
          patch = 0;
          has_minor = false;
          has_patch = false;
          pre = identifiers pre;
        })
        parts

-- The set that a token stands for, from the set of its version.
abbrev with_partial : (Partial → ComparatorSet) → Text → Option ComparatorSet
with_partial f s = and_then (parse_partial s) (λ p. some (f p))

unfoldable pub parse_comparator : Text → Option ComparatorSet
unfolding is_wildcard parse_partial bound_set exact_set tilde_set caret_set has_prefix
parse_comparator tok =
    if is_wildcard tok
    then some any_set
    else if has_prefix (bytes "^") tok
    then with_partial caret_set (drop 1 tok)
    else if has_prefix (bytes "~>") tok
    then with_partial tilde_set (drop 2 tok)
    else if has_prefix (bytes "~") tok
    then with_partial tilde_set (drop 1 tok)
    else if has_prefix (bytes ">=") tok
    then with_partial (bound_set op_gte) (drop 2 tok)
    else if has_prefix (bytes "<=") tok
    then with_partial (bound_set op_lte) (drop 2 tok)
    else if has_prefix (bytes ">") tok
    then with_partial (bound_set op_gt) (drop 1 tok)
    else if has_prefix (bytes "<") tok
    then with_partial (bound_set op_lt) (drop 1 tok)
    else if has_prefix (bytes "=") tok
    then with_partial exact_set (drop 1 tok)
    else with_partial exact_set tok

unfoldable pub hyphen_range : Text → Text → Option ComparatorSet
unfolding parse_partial hyphen_set
hyphen_range lo hi =
    and_then (parse_partial lo) (λ lp. and_then (parse_partial hi) (λ hp. some (hyphen_set lp hp)))

-- The tokens after which a space is tolerated.
abbrev is_operator : Text → Bool
is_operator s =
    text_eq s (bytes ">")
    || (text_eq s (bytes ">=")
        || (text_eq s (bytes "<")
            || (text_eq s (bytes "<=")
                || (text_eq s (bytes "=")
                    || (text_eq s (bytes "~")
                        || (text_eq s (bytes "~>") || text_eq s (bytes "^")))))))

unfoldable pub join_loose_operators : List Text → List Text
join_loose_operators [] = []
join_loose_operators (f ∷ []) = f ∷ []
join_loose_operators (f ∷ g ∷ rest) =
    let joined = (f ++ g) ∷ join_loose_operators rest in
    let apart = f ∷ join_loose_operators (g ∷ rest) in if is_operator f then joined else apart

abbrev append_sets : Option ComparatorSet → Option ComparatorSet → Option ComparatorSet
append_sets first rest = and_then first (λ a. and_then rest (λ b. some (a ++ b)))

-- The loop over the tokens; a hyphen range takes three.
unfoldable pub read_tokens : List Text → Option ComparatorSet
unfolding parse_comparator hyphen_range
read_tokens [] = some []
read_tokens (a ∷ []) = append_sets (parse_comparator a) (some [])
read_tokens (a ∷ b ∷ []) = append_sets (parse_comparator a) (read_tokens (b ∷ []))
read_tokens (a ∷ b ∷ c ∷ rest) =
    let hyphen = append_sets (hyphen_range a c) (read_tokens rest) in
    let single = append_sets (parse_comparator a) (read_tokens (b ∷ c ∷ rest)) in
    if text_eq b (bytes "-") then hyphen else single

unfoldable pub parse_comparator_set : Text → Option ComparatorSet
unfolding read_tokens join_loose_operators fields
parse_comparator_set s = elim (join_loose_operators (fields s)) [
  | [] ↦ some any_set
  | t ∷ tokens ↦ read_tokens (t ∷ tokens)
]

unfoldable pub read_sets : List Text → Option (List ComparatorSet)
unfolding parse_comparator_set trim_space
read_sets [] = some []
read_sets (part ∷ parts) =
    and_then (parse_comparator_set (trim_space part))
      (λ set. and_then (read_sets parts) (λ sets. some (set ∷ sets)))

unfoldable pub parse_range : Text → Option Range
unfolding read_sets split_pair trim_space
parse_range raw =
    let s = trim_space raw in
    if text_eq s [] || (text_eq s (bytes "latest") || text_eq s (bytes "*"))
    then some (record { sets = any_set ∷ []; raw = raw })
    else and_then (read_sets (split_pair b'|' s)) (λ sets. some (record { sets = sets; raw = raw }))
