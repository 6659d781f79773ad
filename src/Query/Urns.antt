-- ===== src/Query/Urns.antt =====
-- The names that internal/query lets into the text of a statement: the patterns of
-- internal/query/expander.go and internal/query/audit.go, and the quoting of a list.
pub mod Quoting
pub mod Accepted
use keyholders.Base.{
  ℕ, Bool, true, false, ◌&&◌, ◌||◌, ◌==◌, leb, if◌then◌else◌, List, [], ◌∷◌, ◌++◌, Option, none,
  some, Text, bytes, has_prefix, cut, drop, is_digit,
}

abbrev pub is_lower : ℕ → Bool
is_lower c = leb b'a' c && leb c b'z'

abbrev pub is_upper : ℕ → Bool
is_upper c = leb b'A' c && leb c b'Z'

-- `[a-z0-9._~-]`
abbrev pub name_char : ℕ → Bool
name_char c = is_lower c || (is_digit c || (c == b'.' || (c == b'_' || (c == b'~' || c == b'-'))))

-- `[A-Za-z0-9._+-]`
abbrev pub version_char : ℕ → Bool
version_char c =
    is_upper c
    || (is_lower c || (is_digit c || (c == b'.' || (c == b'_' || (c == b'+' || c == b'-')))))

abbrev pub every : (ℕ → Bool) → Text → Bool
every p [] = true
every p (c ∷ s) = p c && every p s

-- `[...]+`
abbrev pub some_of : (ℕ → Bool) → Text → Bool
some_of p [] = false
some_of p (c ∷ s) = p c && every p s

-- `[a-z0-9._~-]+@[A-Za-z0-9._+-]+`: the characters of a name have no `@`, so the first one splits.
abbrev pub both_parts : Text × Option Text → Bool
both_parts (name, none) = false
both_parts (name, some version) = some_of name_char name && some_of version_char version

unfoldable pub name_at_version : Text → Bool
name_at_version s = both_parts (cut b'@' s)

-- The optional scope, `(@[a-z0-9._~-]+/)?`, with the test for what follows.
abbrev pub scope_then : (Text → Bool) → Text × Option Text → Bool
scope_then rest (scope, none) = false
scope_then rest (scope, some behind) = some_of name_char scope && rest behind

unfoldable pub scoped : (Text → Bool) → Text → Bool
scoped rest [] = rest []
scoped rest (c ∷ s) = if c == b'@' then scope_then rest (cut b'/' s) else rest (c ∷ s)

abbrev pub npm_prefix : Text
npm_prefix = bytes "pkg:npm/"

unfoldable pub npm_urn : Text → Bool
npm_urn u = has_prefix npm_prefix u && scoped name_at_version (drop 8 u)

unfoldable pub npm_package_urn : Text → Bool
npm_package_urn u = has_prefix npm_prefix u && scoped (some_of name_char) (drop 8 u)

-- The loop of `quoteAll`, with the separator before every value but the first.
abbrev pub quote : Text → Text
quote v = b'\'' ∷ (v ++ b'\'' ∷ [])

unfoldable pub quote_rest : List Text → Text
quote_rest [] = []
quote_rest (v ∷ values) = bytes ", " ++ (quote v ++ quote_rest values)

unfoldable pub quote_all : List Text → Text
quote_all [] = []
quote_all (v ∷ values) = quote v ++ quote_rest values
