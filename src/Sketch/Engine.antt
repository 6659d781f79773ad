-- ===== src/Sketch/Engine.antt =====
-- The engine of internal/sketch/sketch.go: every round recomputes all sketches from those of the
-- round before. The workers of a round share nothing, so a round is the list of their results.
pub mod Chunks
pub mod Tables
pub mod Keys
pub mod Rounds
pub mod Sets
pub mod Start
pub mod Bound
pub mod Flow
pub mod Fixpoint
use mathlib.Core.List.{foldl}
use keyholders.Base.{
  ℕ, zero, suc, ◌+◌, ◌-◌, ◌/◌, min, leb, Bool, true, false, ◌||◌, not, ◌==◌, if◌then◌else◌, List,
  [], ◌∷◌, ◌++◌, Option, none, some, Text, Table, lookup, put, length, map, take, drop,
}
use keyholders.Sketch.Exact.{Sketch}

pub record Edge : Type 0 where
  pub from : Text
  pub to : Text

-- The loop of `splitEdges`; the first number bounds its rounds.
unfoldable pub chunks : ℕ → ℕ → List Edge → List (List Edge)
chunks zero size edges = []
chunks (suc rounds) size [] = []
chunks (suc rounds) size (e ∷ edges) =
    take size (e ∷ edges) ∷ chunks rounds size (drop size (e ∷ edges))

unfoldable pub split_edges : List Edge → ℕ → List (List Edge)
split_edges edges workers =
    let n = min workers (length edges) in
    if leb n 1 then edges ∷ [] else chunks (length edges) ((length edges + n - 1) / n) edges

unfoldable pub endpoints : List Edge → List Text
endpoints [] = []
endpoints (e ∷ edges) = e.from ∷ e.to ∷ endpoints edges

module _ {S : Type 0} (sk : Sketch S) where
  -- Every endpoint is seeded, so the value for a missing key is never read.
  abbrev pub get : Table S → Text → S
  get m n = elim (lookup n m) [ none ↦ sk.new | some s ↦ s ]

  unfoldable pub seed : Table S → Text → Table S
  seed cur n = elim (lookup n cur) [ none ↦ put n (sk.add sk.new n) cur | some s ↦ cur ]

  unfoldable pub seeds : List Text → List Edge → Table S
  seeds nodes edges = foldl seed [] (nodes ++ endpoints edges)

  -- One edge of a chunk: the target's sketch in `local` takes the source's of the round before.
  unfoldable pub absorb : Table S → Table S → Edge → Table S
  absorb cur local e = put e.to (sk.merge (get local e.to) (get cur e.from)) local

  unfoldable pub merge_chunk : Table S → List Edge → Table S
  merge_chunk cur chunk = foldl (absorb cur) [] chunk

  -- The cold start of the next round.
  abbrev pub fresh : Table S → Table S
  fresh [] = []
  fresh ((n, s) ∷ cur) = (n, sk.add sk.new n) ∷ fresh cur

  unfoldable pub merge_entry : Table S → Text × S → Table S
  merge_entry next (n, s) = put n (sk.merge (get next n) s) next

  unfoldable pub merge_partial : Table S → Table S → Table S
  merge_partial next part = foldl merge_entry next part

  unfoldable pub round : List (List Edge) → Table S → Table S
  round parts cur = foldl merge_partial (fresh cur) (map (merge_chunk cur) parts)

  unfoldable pub changed : Table S → Table S → Bool
  changed cur [] = false
  changed cur ((n, s) ∷ next) = not (sk.count s == sk.count (get cur n)) || changed cur next

  -- The loop, with a bound on its rounds; `none` is a loop that does not end within it.
  unfoldable pub propagate : ℕ → List (List Edge) → Table S → Option (Table S)
  propagate zero parts cur = none
  propagate (suc rounds) parts cur =
      let next = round parts cur in
      let rest = propagate rounds parts next in if changed cur next then rest else some next

  -- `workers` is what the method of that name returns.
  unfoldable pub run_epoch : ℕ → ℕ → List Text → List Edge → Option (Table S)
  run_epoch rounds workers nodes edges =
      propagate rounds (split_edges edges workers) (seeds nodes edges)
