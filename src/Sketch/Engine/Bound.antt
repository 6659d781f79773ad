-- ===== src/Sketch/Engine/Bound.antt =====
-- How long the loop of internal/sketch/sketch.go runs: the sets together grow with each of its
-- rounds but the last.
use keyholders.Base.{
  ℕ, ◌+◌, ◌*◌, ◌≤◌, ◌<◌, ◌≡◌, inl, inr, true, List, [], ◌∷◌, arith, Bool-cases, length, Text, Table,
  text_eq, text_eq_iff,
}
use keyholders.Sketch.Exact.{ExactSet, exact_set, member}
use keyholders.Sketch.Engine.{get}
use keyholders.Sketch.Engine.Rounds.{Plain}
use keyholders.Sketch.Engine.Sets.{length-le}
use keyholders.Sketch.Engine.Tables.{names}

-- How many members the sets of the nodes have.
unfoldable pub total : Table ExactSet → List Text → ℕ
total m [] = 0
total m (v ∷ vs) = length (get exact_set m v) + total m vs

-- The members of every set of the one are members of that of the other.
abbrev pub Within : Table ExactSet → Table ExactSet → Type 0
Within m k =
    (v u : Text) → member (get exact_set m v) u ≡ true → member (get exact_set k v) u ≡ true

member-names : (vs : List Text) (v : Text) → member vs v ≡ names vs v
member-names [] v = ground arith
member-names (w ∷ vs) v = ground (arith, member-names vs v)

total-le : (m k : Table ExactSet) (vs : List Text) → Plain m → Within m k → total m vs ≤ total k vs
unfolding total
total-le m k [] p w = omega arith
total-le m k (v ∷ vs) p w =
    omega
      (arith, total-le m k vs p w, length-le (get exact_set m v) (get exact_set k v) (p v) (w v))

-- One new member at one of the nodes makes the total larger.
pub total-lt :
    (m k : Table ExactSet) (vs : List Text) (v : Text)
    → Plain m
    → Within m k
    → names vs v ≡ true
    → length (get exact_set m v) < length (get exact_set k v)
    → total m vs < total k vs
unfolding total
total-lt m k [] v p w h l = cc
total-lt m k (n ∷ vs) v p w h l = elim (Bool-cases (text_eq n v)) [
  | inl here ↦ let e = (text_eq_iff n v).0 here in rw e (omega (arith, total-le m k vs p w))
  | inr other ↦ omega (
    arith,
    total-lt m k vs v p w (ground arith) l,
    length-le (get exact_set m n) (get exact_set k n) (p n) (w n),
  )
]

-- Where all members are among some nodes, the total has a bound.
pub total-bound :
    (m : Table ExactSet) (ns vs : List Text)
    → Plain m
    → ((v u : Text) → member (get exact_set m v) u ≡ true → names ns u ≡ true)
    → total m vs ≤ length vs * length ns
unfolding total
total-bound m ns [] p h = omega arith
total-bound m ns (v ∷ vs) p h =
    let one = length-le (get exact_set m v) ns (p v) (λ u k. rw (member-names ns u) (h v u k)) in
    grind (arith, one, total-bound m ns vs p h)
