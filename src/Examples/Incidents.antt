-- ===== src/Examples/Incidents.antt =====
-- internal/incident on a package of three releases, the second affected, and two locks.
use keyholders.Base.{
  ℕ, if◌then◌else◌, ◌≡◌, ◌↔◌, ◌≤◌, refl, Bool, true, false, List, [], ◌∷◌, In, Text, Table, bytes,
  text_eq, lookup, put, Read,
}
use keyholders.Incident.Bisect.{
  Release, Dependency, DependencyDiff, Introduction, Error, Outcome, BisectSource, is_affected,
  first_affected, introduce, bisect, ranges_of, compare_after, removed_from, diff_dependencies,
}
use keyholders.Incident.Bisect.First.{bisect-Earliest, bisect-unaffected}
use keyholders.Incident.Live
use keyholders.Incident.Live.Exposed.{Exposed, resolved_while_live-Exposed}

abbrev name : Text
name = bytes "left-pad"

abbrev release : Text → ℕ → Release
release version at = record { version = version; published_at = at }

abbrev releases : List Release
releases = release (bytes "1.2.0") 30 ∷ release (bytes "1.0.0") 10 ∷ release (bytes "1.1.0") 20 ∷ []

abbrev affected : Table Bool
affected = (bytes "1.1.0", true) ∷ (bytes "1.2.0", true) ∷ []

abbrev dependency : Text → Text → Dependency
dependency n r = record { name = n; range = r }

abbrev declared : Text → List Dependency
declared version =
    if text_eq version (bytes "1.0.0")
    then dependency (bytes "a") (bytes "^1") ∷ dependency (bytes "b") (bytes "^1") ∷ []
    else dependency (bytes "b") (bytes "^2") ∷ dependency (bytes "c") (bytes "^1") ∷ []

abbrev src : BisectSource
src = record {
  timeline = λ n. Read.got releases;
  affected_versions = λ a n. if text_eq a (bytes "GHSA-1") then Read.got affected else Read.got [];
  dependencies = λ n v. Read.got (declared v);
}

abbrev changes : DependencyDiff
changes = record {
  added = dependency (bytes "c") (bytes "^1") ∷ [];
  removed = dependency (bytes "a") (bytes "^1") ∷ [];
  changed = record { name = bytes "b"; from = bytes "^1"; to = bytes "^2" } ∷ [];
}

abbrev introduction : Introduction
introduction = record {
  package_name = name;
  first_affected = bytes "1.1.0";
  published_at = 20;
  previous = bytes "1.0.0";
  diff = changes;
}

bisect-introduction : bisect src (bytes "GHSA-1") name ≡ Outcome.ok introduction
unfolding bisect introduce first_affected diff_dependencies ranges_of compare_after removed_from
    lookup put text_eq
bisect-introduction = refl

affected-read : src.affected_versions (bytes "GHSA-1") name ≡ Read.got affected
unfolding text_eq
affected-read = refl

bisect-Earliest_example :
    (first : Release) × In first releases
    × (first.version ≡ introduction.first_affected)
    × (first.published_at ≡ introduction.published_at)
    × (is_affected affected introduction.first_affected ≡ true)
    × ((r : Release)
        → In r releases
        → is_affected affected r.version ≡ true
        → introduction.published_at ≤ r.published_at)
bisect-Earliest_example =
    bisect-Earliest src (bytes "GHSA-1") name releases affected introduction refl affected-read
      bisect-introduction

unaffected-read : src.affected_versions (bytes "GHSA-2") name ≡ Read.got []
unfolding text_eq
unaffected-read = refl

bisect-unaffected_example :
    (bisect src (bytes "GHSA-2") name
      ≡ Outcome.err (Error.affects_no_version name (bytes "GHSA-2")))
    ↔ ((r : Release) → In r releases → is_affected [] r.version ≡ false)
bisect-unaffected_example =
    bisect-unaffected src (bytes "GHSA-2") name releases [] refl unaffected-read

diff-changes : diff_dependencies src name (bytes "1.0.0") (bytes "1.1.0") ≡ Outcome.ok changes
unfolding diff_dependencies ranges_of compare_after removed_from lookup put text_eq
diff-changes = refl

abbrev window : Live.ResolutionWindow
window = record {
  dependent_name = bytes "app";
  dependent_version = bytes "2.0.0";
  valid_from = 20;
  valid_to = 30;
}

abbrev lock : Text → ℕ → Live.LockedAt
lock project at = record { project = project; at = at }

abbrev live : Live.LiveSource
live = record {
  resolvers_into = λ n v. Read.got (window ∷ []);
  projects_locking = λ n v. Read.got (lock (bytes "p") 20 ∷ lock (bytes "q") 30 ∷ []);
}

abbrev exposed : Live.Exposure
exposed = Live.exposure window (lock (bytes "p") 20)

live-exposed : Live.resolved_while_live live name (bytes "1.1.0") ≡ Live.Outcome.ok (exposed ∷ [])
unfolding Live.resolved_while_live Live.over_windows Live.exposures
live-exposed = refl

resolved_while_live-Exposed_example : In exposed (exposed ∷ []) ↔ Exposed live (window ∷ []) exposed
resolved_while_live-Exposed_example =
    resolved_while_live-Exposed live name (bytes "1.1.0") (window ∷ []) (exposed ∷ []) refl
      live-exposed exposed
