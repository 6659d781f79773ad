-- ===== src/Observatory/Leaderboard.antt =====
-- internal/observatory/leaderboard.go: the ranking of an epoch's sketches.
pub mod Highest
use keyholders.Base.{
  ℕ, Bool, ◌&&◌, ltb, ◌==◌, if◌then◌else◌, List, [], ◌∷◌, Text, Table, text_lt, length, take,
  sort_by,
}
use keyholders.Sketch.Exact.{Sketch}

pub record LeaderboardEntry : Type 0 where
  pub name : Text
  pub kri : ℕ

-- The callback of the sort.
abbrev pub ranks_before : LeaderboardEntry → LeaderboardEntry → Bool
ranks_before a b = if a.kri == b.kri then text_lt a.name b.name else ltb b.kri a.kri

module _ {S : Type 0} (sk : Sketch S) where
  abbrev pub entries : Table S → List LeaderboardEntry
  entries [] = []
  entries ((id, s) ∷ results) = record { name = id; kri = sk.count s } ∷ entries results

  abbrev pub rank : Table S → List LeaderboardEntry
  rank results = sort_by ranks_before (entries results)

-- A bound of zero or below is zero here.
abbrev pub top : List LeaderboardEntry → ℕ → List LeaderboardEntry
top entries n = if ltb 0 n && ltb n (length entries) then take n entries else entries

unfoldable pub leaderboard : {S : Type 0} → Sketch S → Table S → ℕ → List LeaderboardEntry
leaderboard sk results n = top (rank sk results) n
