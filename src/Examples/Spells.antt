-- ===== src/Examples/Spells.antt =====
-- internal/ingest/rows.go on three samples, out of order: one account leaves and comes back.
use keyholders.Base.{
  ℕ, ◌≡◌, refl, arith, false, List, [], ◌∷◌, Text, bytes, text_eq, lookup, put, sort_by,
}
use keyholders.Query.Interval.{open_interval}
use keyholders.Ingest.Spells.{
  Observation, spells_at, distinct, emit, close_gone, enter, observe, close_all, earlier, spells,
}
use keyholders.Ingest.Spells.Account.{held, listed_at}
use keyholders.Ingest.Spells.Answer.{held-spells}

abbrev eve : Text
eve = bytes "eve"

abbrev sample : ℕ → List Text → Observation
sample at maintainers = record { at = at; maintainers = maintainers }

abbrev samples : List Observation
samples = sample 300 (eve ∷ eve ∷ []) ∷ sample 100 (eve ∷ []) ∷ sample 200 (bytes "bob" ∷ []) ∷ []

eve_twice :
    spells_at (spells samples) eve
    ≡ record { from = 100; to = 200; observed = 1 }
      ∷ record { from = 300; to = open_interval; observed = 1 }
      ∷ []
unfolding spells observe close_gone enter close_all emit distinct lookup put text_eq
eve_twice = refl

held-spells_example :
    held (spells_at (spells samples) eve) 250 ≡ listed_at eve 250 false (sort_by earlier samples)
held-spells_example = held-spells samples eve 250 (omega arith)
