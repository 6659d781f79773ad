-- ===== src/Graph/Id.antt =====
-- internal/graph/id.go: names of nodes and edges, and their 63-bit ids.
pub mod Names
pub mod Range
use Prim.Native.Nat.{bit_and, bit_xor}
use mathlib.Core.List.{foldl}
use keyholders.Base.{ℕ, ◌*◌, ◌%◌, List, [], ◌∷◌, ◌++◌, Text, bytes}

abbrev pub fnv_offset_64 : ℕ
fnv_offset_64 = 14695981039346656037

abbrev pub fnv_prime_64 : ℕ
fnv_prime_64 = 1099511628211

abbrev pub non_neg_mask : ℕ
non_neg_mask = 0x7FFF_FFFF_FFFF_FFFF

-- The body of the loop, on 64 bits.
abbrev pub mix : ℕ → ℕ → ℕ
mix h c = (bit_xor h c * fnv_prime_64) % 0x1_0000_0000_0000_0000

unfoldable pub id : Text → ℕ
id urn = bit_and (foldl mix fnv_offset_64 urn) non_neg_mask

abbrev pub edge_key : Text → Text → Text → Text → Text
edge_key src edge_type dst discriminator =
    src ++ b'|' ∷ (edge_type ++ b'|' ∷ (dst ++ b'|' ∷ discriminator))

unfoldable pub edge_id : Text → Text → Text → Text → ℕ
unfolding id
edge_id src edge_type dst discriminator = id (edge_key src edge_type dst discriminator)

abbrev pub package_urn : Text → Text → Text
package_urn ecosystem name = bytes "pkg:" ++ (ecosystem ++ b'/' ∷ name)

abbrev pub version_urn : Text → Text → Text → Text
version_urn ecosystem name version = bytes "pkg:" ++ (ecosystem ++ b'/' ∷ (name ++ b'@' ∷ version))

abbrev pub maintainer_urn : Text → Text → Text
maintainer_urn ecosystem handle = bytes "mnt:" ++ (ecosystem ++ b'/' ∷ handle)

abbrev pub advisory_urn : Text → Text
advisory_urn osv_id = bytes "osv:" ++ osv_id

abbrev pub project_urn : Text → Text
project_urn name = bytes "prj:local/" ++ name
