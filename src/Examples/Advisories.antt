-- ===== src/Examples/Advisories.antt =====
-- internal/advisory/ranges.go on a range that was fixed in 1.9.0.
use keyholders.Base.{◌≡◌, refl, List, [], ◌∷◌, Text, bytes, text_eq, arith}
use keyholders.Semver.Version.{Version, zero_version, parse, compare, compare_pre}
use keyholders.Advisory.Ranges.{
  Release, EventKind, Range, Boundary, boundaries, boundary_of, parse_boundary, transition, walk,
  is_affected, affected_among, affected_versions,
}
use keyholders.Advisory.Ranges.Walk.{Rising}
use keyholders.Examples.Versions.{version}

abbrev fixed_later : Range
fixed_later = record {
  type = bytes "SEMVER";
  events =
      record { introduced = bytes "0"; fixed = []; last_affected = [] }
      ∷ record { introduced = []; fixed = bytes "1.9.0"; last_affected = [] }
      ∷ [];
}

abbrev bounds : List Boundary
bounds =
    record { version = zero_version; kind = EventKind.introduced }
    ∷ record { version = version 1 9 0 []; kind = EventKind.fixed }
    ∷ []

abbrev release : Text → Release
release v = record { version = v; published_at = 100 }

affected_versions-fixed_later :
    affected_versions fixed_later (release (bytes "1.2.4") ∷ release (bytes "1.9.0") ∷ [])
    ≡ release (bytes "1.2.4") ∷ []
unfolding affected_versions affected_among boundaries boundary_of parse_boundary parse text_eq
    is_affected walk transition compare compare_pre
affected_versions-fixed_later = refl

bounds-Rising : Rising bounds
unfolding compare compare_pre
bounds-Rising = ((λ e. ground arith, tt), (tt, tt))
