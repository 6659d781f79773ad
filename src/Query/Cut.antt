-- ===== src/Query/Cut.antt =====
-- internal/query/cut.go: what a project stops reaching when one account's packages are taken out.
pub mod Keys
pub mod Removal
pub mod Orphans
use keyholders.Base.{
  has_key, ℕ, ◌+◌, ◌-◌, Bool, true, false, ◌&&◌, not, ltb, ◌==◌, if◌then◌else◌, List, [], ◌∷◌, ◌++◌,
  Option, none, some, Text, Table, text_eq, text_lt, lookup, length, sort_by,
}
use keyholders.Query.Interval.{Set}
use keyholders.Query.Reach.{Result, Options, edges_at, has, replay}
use keyholders.Query.Audit.{Keyholder, packages, package_urn_of}
use keyholders.Semver.Version.{is_empty}

pub record Cut : Type 0 where
  pub handle : Text
  pub controls : ℕ
  pub packages : ℕ
  pub versions : ℕ
  pub beyond : ℕ
  pub orphaned : List Text

pub irreplaceable : Cut → Bool
irreplaceable c = ltb 0 c.beyond

-- `versionsOf[pkg]`: the reached versions of a package.
unfoldable pub versions_of : Table Set → Text → List Text
versions_of [] pkg = []
versions_of ((urn, set) ∷ coexistence) pkg =
    let rest = versions_of coexistence pkg in
    if is_empty (package_urn_of urn)
    then rest
    else if text_eq (package_urn_of urn) pkg
    then urn ∷ rest
    else rest

-- The reached versions of the packages that the account holds.
unfoldable pub blocked_versions : Table Set → Table Set → List Text
blocked_versions coexistence [] = []
blocked_versions coexistence ((pkg, set) ∷ through) =
    versions_of coexistence pkg ++ blocked_versions coexistence through

unfoldable pub reached_packages : Table Set → List Text
reached_packages [] = []
reached_packages ((urn, set) ∷ coexistence) =
    let rest = reached_packages coexistence in
    if is_empty (package_urn_of urn)
    then rest
    else if has rest (package_urn_of urn)
    then rest
    else package_urn_of urn ∷ rest

-- The packages of `before` that are not in `after`.
unfoldable pub lost_packages : List Text → List Text → List Text
lost_packages [] after = []
lost_packages (pkg ∷ before) after =
    let rest = lost_packages before after in if has after pkg then rest else pkg ∷ rest

-- Those that the account does not hold itself.
unfoldable pub beyond_packages : List Text → Table Set → List Text
beyond_packages [] through = []
beyond_packages (pkg ∷ lost) through =
    let rest = beyond_packages lost through in if has_key through pkg then rest else pkg ∷ rest

-- The replay with the blocked versions taken out.
abbrev pub without : Result → List Text → Table Set
without r blocked = (replay r.sources r.opts (edges_at r.edges) (has blocked)).reached

unfoldable pub cut_of : Result → Keyholder → List Text → Cut
cut_of r k blocked =
    let after = without r blocked in
    let lost = lost_packages (reached_packages r.coexistence) (reached_packages after) in
    let orphaned = beyond_packages lost k.through in
    record {
      handle = k.handle;
      controls = packages k;
      packages = length lost;
      versions = length r.coexistence - length after;
      beyond = length orphaned;
      orphaned = sort_by text_lt orphaned;
    }

-- The loop over the roster; an account with nothing to take out is passed over.
unfoldable pub cuts_from : Result → List Keyholder → List Cut
cuts_from r [] = []
cuts_from r (k ∷ keyholders) = elim (blocked_versions r.coexistence k.through) [
  | [] ↦ cuts_from r keyholders
  | b ∷ blocked ↦ cut_of r k (b ∷ blocked) ∷ cuts_from r keyholders
]

-- The callback of the sort.
abbrev pub wider : Cut → Cut → Bool
wider a b =
    if a.packages == b.packages then text_lt a.handle b.handle else ltb b.packages a.packages

unfoldable pub cuts : Result → List Keyholder → List Cut
cuts r keyholders = sort_by wider (cuts_from r keyholders)
