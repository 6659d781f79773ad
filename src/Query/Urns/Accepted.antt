-- ===== src/Query/Urns/Accepted.antt =====
-- Which of the names that internal/graph/id.go builds the pattern of internal/query/expander.go
-- accepts.
use keyholders.Base.{◌≡◌, ap, ◌&&◌, ◌∷◌, ◌++◌, Text, bytes, has_prefix, ℕ}
use keyholders.Base.Cutting.{Lacks, cut-append}
use keyholders.Graph.Id.{version_urn}
use keyholders.Query.Urns.{
  some_of, name_char, version_char, both_parts, name_at_version, scoped, npm_urn,
}

name_at_version-plain :
    (name version : Text)
    → Lacks b'@' name
    → name_at_version (name ++ b'@' ∷ version)
      ≡ (some_of name_char name && some_of version_char version)
unfolding name_at_version
name_at_version-plain name version l = ap both_parts (cut-append b'@' name version l)

-- The version URN of a name without `@` that is not empty is accepted exactly when the name has only
-- characters of the pattern, which are no capital letters, and the version is not empty and has only
-- its own.
pub npm_urn-version_urn :
    (c : ℕ) (name version : Text)
    → Lacks b'@' (c ∷ name)
    → npm_urn (version_urn (bytes "npm") (c ∷ name) version)
      ≡ (some_of name_char (c ∷ name) && some_of version_char version)
unfolding npm_urn scoped has_prefix
npm_urn-version_urn c name version l = rw l.0 (name_at_version-plain (c ∷ name) version l)
