-- ===== src/Examples/Boards.antt =====
-- internal/observatory/leaderboard.go with exact sets of three sizes.
use keyholders.Base.{◌≡◌, ◌≤◌, ◌<◌, ◌⊎◌, refl, [], ◌∷◌, In, All, length, Table, bytes, text_lt}
use keyholders.Sketch.Exact.{ExactSet, exact_set}
use keyholders.Observatory.Leaderboard.{LeaderboardEntry, leaderboard}
use keyholders.Observatory.Leaderboard.Highest.{leaderboard-Highest}

abbrev results : Table ExactSet
results =
    (bytes "b", bytes "b" ∷ [])
    ∷ (bytes "c", bytes "c" ∷ bytes "b" ∷ [])
    ∷ (bytes "a", bytes "a" ∷ [])
    ∷ []

abbrev lowest : LeaderboardEntry
lowest = record { name = bytes "b"; kri = 1 }

board :
    leaderboard exact_set results 2
    ≡ record { name = bytes "c"; kri = 2 } ∷ record { name = bytes "a"; kri = 1 } ∷ []
unfolding leaderboard text_lt
board = refl

leaderboard-Highest_example :
    In lowest (leaderboard exact_set results 2)
    ⊎ ((length (leaderboard exact_set results 2) ≡ 2)
        × (0 < 2)
        × All (λ e. lowest.kri ≤ e.kri) (leaderboard exact_set results 2))
leaderboard-Highest_example = leaderboard-Highest exact_set results 2 lowest In.head
