-- ===== src/Examples/Sketches.antt =====
-- internal/sketch/sketch.go on two epochs: the chain a, b, c with a cycle, and one edge less.
use keyholders.Base.{
  ◌≡◌, ◌↔◌, arith, refl, true, List, [], ◌∷◌, some, none, Option, Text, Table, bytes, text_eq,
  lookup, put,
}
use keyholders.Sketch.Exact.{ExactSet, exact_set, member, add_member, merge_members}
use keyholders.Sketch.Engine.{
  Edge, get, chunks, split_edges, endpoints, seed, seeds, absorb, merge_chunk, merge_entry,
  merge_partial, round, changed, propagate, run_epoch,
}
use keyholders.Sketch.Engine.Sets.{Distinct}
use keyholders.Sketch.Engine.Flow.{Flows}
use keyholders.Sketch.Engine.Fixpoint.{run_epoch-Flows}

abbrev a : Text
a = bytes "a"

abbrev b : Text
b = bytes "b"

abbrev c : Text
c = bytes "c"

abbrev edge : Text → Text → Edge
edge v w = record { from = v; to = w }

abbrev first_epoch : List Edge
first_epoch = edge a b ∷ edge b c ∷ edge c b ∷ []

abbrev second_epoch : List Edge
second_epoch = edge b c ∷ edge c b ∷ []

-- The members that the set of a name has after an epoch.
abbrev reaching : Option (Table ExactSet) → Text → ExactSet
reaching none v = []
reaching (some m) v = get exact_set m v

first-b : reaching (run_epoch exact_set 50 2 (a ∷ []) first_epoch) b ≡ b ∷ a ∷ c ∷ []
unfolding run_epoch propagate split_edges chunks endpoints seeds seed round merge_chunk absorb
    merge_partial merge_entry changed add_member merge_members lookup put text_eq
first-b = refl

-- The dead edge takes its member along.
second-b : reaching (run_epoch exact_set 50 2 (a ∷ []) second_epoch) b ≡ b ∷ c ∷ []
unfolding run_epoch propagate split_edges chunks endpoints seeds seed round merge_chunk absorb
    merge_partial merge_entry changed add_member merge_members lookup put text_eq
second-b = refl

run_epoch-Flows_example :
    (m : Table ExactSet) × (run_epoch exact_set 50 2 (a ∷ []) first_epoch ≡ some m)
    × ((v u : Text) → (member (get exact_set m v) u ≡ true) ↔ Flows (a ∷ []) first_epoch u v)
    × ((v : Text) → Distinct (get exact_set m v))
unfolding endpoints
run_epoch-Flows_example = run_epoch-Flows 50 2 (a ∷ []) first_epoch (omega arith)
