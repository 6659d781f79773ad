-- ===== src/Query/Audit.antt =====
-- internal/query/audit.go: the accounts of a roster, and the package that a version belongs to.
pub mod Urn
use keyholders.Base.{ℕ, List, [], ◌∷◌, Option, none, some, Text, Table, cut_last, length}
use keyholders.Query.Interval.{Set}

-- `through` maps the packages that the account could publish to the spans over which it could.
pub record Keyholder : Type 0 where
  pub handle : Text
  pub through : Table Set
  pub since : ℕ

abbrev pub packages : Keyholder → ℕ
packages k = length k.through

-- What stands before the last `@`; empty where there is none.
unfoldable pub package_urn_of : Text → Text
package_urn_of urn = elim (cut_last b'@' urn) [ none ↦ [] | some (pkg, version) ↦ pkg ]
