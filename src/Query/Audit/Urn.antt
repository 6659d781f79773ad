-- ===== src/Query/Audit/Urn.antt =====
-- `PackageURNOf` of internal/query/audit.go undoes `VersionURN` of internal/graph/id.go.
use mathlib.Core.List.{append_assoc}
use keyholders.Base.{◌≡◌, refl, sym, ap, ◌∙◌, ◌∷◌, ◌++◌, some, Text, bytes, cut_last}
use keyholders.Base.Cutting.{Lacks, cut_last-append}
use keyholders.Graph.Id.{package_urn, version_urn}
use keyholders.Query.Audit.{package_urn_of}

package_urn_of-cut :
    (urn : Text) {pkg version : Text}
    → cut_last b'@' urn ≡ some (pkg, version)
    → package_urn_of urn ≡ pkg
unfolding package_urn_of
package_urn_of-cut urn e = rw (package_urn_of, e) refl

-- The package of a version's name is the name of its package, for versions without an at sign.
pub package_urn_of-version_urn :
    (ecosystem name version : Text)
    → Lacks b'@' version
    → package_urn_of (version_urn ecosystem name version) ≡ package_urn ecosystem name
package_urn_of-version_urn ecosystem name version p =
    let split : version_urn ecosystem name version ≡ package_urn ecosystem name ++ b'@' ∷ version =
      ap (λ s. bytes "pkg:" ++ s) (sym (append_assoc ecosystem (b'/' ∷ name) (b'@' ∷ version))) in
    let cut = cut_last-append b'@' (package_urn ecosystem name) version p in
    ap package_urn_of split ∙ package_urn_of-cut (package_urn ecosystem name ++ b'@' ∷ version) cut
