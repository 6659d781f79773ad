-- ===== src/Lockfile/Yarn/Headers.antt =====
-- `yarnEntryName` of internal/lockfile/yarn.go reads the installed package off an entry header.
use keyholders.Base.{
  ℕ, ◌≡◌, Bool, false, ◌==◌, ◌||◌, [], ◌∷◌, ◌++◌, Option, none, some, Text, bytes, has_prefix,
  trim_right, List,
}
use keyholders.Base.Cutting.{Lacks}
use keyholders.Lockfile.Words.{is_quote}
use keyholders.Lockfile.Words.Trim.{Without, Only, is_margin}
use keyholders.Lockfile.Yarn.{is_local}

-- The bytes that end or delimit a descriptor: spaces, quotes and the comma.
abbrev pub is_delimiter : ℕ → Bool
is_delimiter c = is_margin c || c == b','

-- A name has an `@` at most in front, and is not one of Yarn's own sections.
abbrev pub IsName : Text → Type 0
IsName [] = ⊥
IsName (c ∷ s) =
    Without is_delimiter (c ∷ s) × Lacks b'@' s × (has_prefix (bytes "__") (c ∷ s) ≡ false)

-- Further descriptors of the same entry.
abbrev pub further : Option Text → Text
further none = []
further (some more) = b',' ∷ more

-- The header of an entry, with what stands before and after its first descriptor.
abbrev pub header : Text → Text → Text → Text → Option Text → Text
header before after name descriptor more =
    ((before ++ ((name ++ b'@' ∷ descriptor) ++ after)) ++ further more) ++ b':' ∷ []

-- A descriptor holds no quote and no comma, and no space at its end.
abbrev pub is_break : ℕ → Bool
is_break c = is_quote c || c == b','

abbrev pub IsDescriptor : Text → Type 0
IsDescriptor d = Without is_break d × (trim_right d ≡ d)

module _ (before after : Text) (b : Only is_quote before) (a : Only is_quote after) where
  -- The first descriptor between its quotes.
  abbrev between : Text → Text
  between d = before ++ (d ++ after)

-- A range of the registry: it starts like no local path and not with `npm:`.
abbrev pub IsRange : Text → Type 0
IsRange range =
    IsDescriptor range × (is_local range ≡ false) × (has_prefix (bytes "npm:") range ≡ false)

-- The four words that start a local path.
abbrev pub local_words : List Text
local_words = bytes "workspace:" ∷ bytes "link:" ∷ bytes "portal:" ∷ bytes "file:" ∷ []
