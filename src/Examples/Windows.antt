-- ===== src/Examples/Windows.antt =====
-- internal/resolve/windows.go on a package with four releases.
use keyholders.Base.{ℕ, ◌≡◌, refl, List, [], ◌∷◌, Text, bytes, arith, In, All, ◌<◌}
use keyholders.Query.Interval.{open_interval}
use keyholders.Semver.Version.{compare, compare_pre, parse}
use keyholders.Semver.Version.Total.{IsCanonical}
use keyholders.Semver.Range.{
  satisfies, satisfies_any, satisfies_set, satisfies_all, satisfies_comparator,
}
use keyholders.Resolve.Windows.{
  Release, Window, Candidate, admit, windows, extend, clamp, clamp_one, candidate_of, open_windows,
}
use keyholders.Resolve.Windows.Steps.{Answers}
use keyholders.Resolve.Windows.Clamp.{Tiles}
use keyholders.Resolve.Windows.Answer.{windows-Tiles, windows-Answers}
use keyholders.Examples.Versions.{version}
use keyholders.Examples.Ranges.{caret_full}

abbrev release : Text → ℕ → Release
release v t = record { version = v; published_at = t }

abbrev releases : List Release
releases =
    release (bytes "1.2.4") 100
    ∷ release (bytes "1.9.0") 300
    ∷ release (bytes "1.3.1") 350
    ∷ release (bytes "2.0.0") 400
    ∷ []

abbrev admitted : List Candidate
admitted =
    record { version = version 1 2 4 []; raw = bytes "1.2.4"; published = 100 }
    ∷ record { version = version 1 9 0 []; raw = bytes "1.9.0"; published = 300 }
    ∷ record { version = version 1 3 1 []; raw = bytes "1.3.1"; published = 350 }
    ∷ []

admit-releases : admit caret_full releases ≡ admitted
unfolding admit candidate_of parse satisfies satisfies_any satisfies_set satisfies_all
    satisfies_comparator compare compare_pre
admit-releases = refl

windows-releases :
    windows releases caret_full 200
    ≡ record { version = bytes "1.2.4"; from = 200; to = 300 }
      ∷ record { version = bytes "1.9.0"; from = 300; to = open_interval }
      ∷ []
unfolding windows clamp open_windows admit candidate_of parse satisfies satisfies_any satisfies_set
    satisfies_all satisfies_comparator compare compare_pre extend clamp_one
windows-releases = refl

in_time : All (λ c. c.published < open_interval) (admit caret_full releases)
in_time = rw admit-releases (omega arith, (omega arith, (omega arith, tt)))

canonical : All (λ c. IsCanonical c.version) (admit caret_full releases)
unfolding IsCanonical
canonical = rw admit-releases (tt, (tt, (tt, tt)))

windows-Tiles_example : Tiles (windows releases caret_full 200)
windows-Tiles_example = windows-Tiles releases caret_full 200 in_time

abbrev first : Candidate
first = record { version = version 1 2 4 []; raw = bytes "1.2.4"; published = 100 }

first-In : In first (admit caret_full releases)
first-In = rw admit-releases In.head

windows-Answers_example : Answers (admit caret_full releases) (windows releases caret_full 200) 360
windows-Answers_example =
    windows-Answers releases caret_full 200 360 first canonical (omega arith) (omega arith) first-In
      (omega arith)

abbrev last : Window
last = record { version = bytes "1.9.0"; from = 300; to = open_interval }

last-In : In last (windows releases caret_full 200)
last-In = rw windows-releases (In.tail In.head)
