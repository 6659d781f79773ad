-- ===== src/Examples/Snapshots.antt =====
-- internal/observatory/snapshot.go on a package with a prerelease.
use keyholders.Base.{◌≡◌, ◌⊎◌, refl, false, ℕ, List, [], ◌∷◌, none, some, Text, bytes, In}
use keyholders.Observatory.Snapshot.{Release, is_prerelease, eligible, latest, current_version}
use keyholders.Observatory.Snapshot.Current.{Newest, current_version-Newest}

abbrev release : Text → ℕ → Release
release v t = record { version = v; published_at = t }

abbrev releases : List Release
releases =
    release (bytes "1.0.0") 100
    ∷ release (bytes "2.0.0-rc.1") 200
    ∷ release (bytes "1.0.1") 300
    ∷ []

current_version-releases : current_version releases 250 ≡ some (release (bytes "1.0.0") 100)
unfolding current_version latest is_prerelease
current_version-releases = refl

current_version-Newest_example :
    ((current_version releases 250 ≡ none)
      × ((r : Release) → In r releases → eligible r 250 ≡ false))
    ⊎ ((b : Release) × (current_version releases 250 ≡ some b) × Newest releases 250 b)
current_version-Newest_example = current_version-Newest releases 250
