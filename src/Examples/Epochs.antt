-- ===== src/Examples/Epochs.antt =====
-- internal/observatory/snapshot.go on two packages and two epochs.
use keyholders.Base.{
  ℕ, if◌then◌else◌, ◌≡◌, ◌↔◌, refl, List, [], ◌∷◌, In, Text, bytes, text_eq, Read,
}
use keyholders.Sketch.Engine.{Edge}
use keyholders.Observatory.Snapshot.{Release, is_prerelease, latest, current_version}
use keyholders.Observatory.Snapshots.{
  Source, Outcome, Epochs, edges_at, append_at, add_epoch, file_epoch, epochs_by_version,
  add_version, each, add_package, snapshots,
}
use keyholders.Observatory.Snapshots.Live.{Live, snapshots_iff}

abbrev app : Text
app = bytes "app"

abbrev release : Text → ℕ → Release
release version at = record { version = version; published_at = at }

abbrev src : Source
src = record {
  timeline = λ n.
      if text_eq n app
      then Read.got (release (bytes "1.0.0") 10 ∷ release (bytes "2.0.0") 30 ∷ [])
      else Read.got (release (bytes "0.1.0") 20 ∷ []);
  dependencies =
      λ n v. if text_eq v (bytes "1.0.0") then Read.got (bytes "lib" ∷ []) else Read.got [];
}

abbrev used : Edge
used = record { from = app; to = bytes "lib" }

abbrev found : Epochs
found = (20, used ∷ []) ∷ (40, []) ∷ []

abbrev names : List Text
names = app ∷ bytes "lib" ∷ []

snapshots-found : snapshots src names (20 ∷ 40 ∷ []) ≡ Outcome.ok found
unfolding snapshots each add_package add_version epochs_by_version file_epoch add_epoch append_at
    current_version latest is_prerelease text_eq
snapshots-found = refl

snapshots_iff_example :
    In used (edges_at found 20)
    ↔ (In {A = ℕ} 20 (20 ∷ 40 ∷ []) × ((name : Text) × In name names × Live used 20 src name))
snapshots_iff_example = snapshots_iff src names (20 ∷ 40 ∷ []) found snapshots-found used 20
