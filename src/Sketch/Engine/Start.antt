-- ===== src/Sketch/Engine/Start.antt =====
-- The cold start of internal/sketch/sketch.go over exact sets.
use mathlib.Core.List.{foldl}
use keyholders.Base.{
  has_key-put, put-Unique, Unique, has_key, ◌≡◌, refl, inl, inr, ◌⊎◌, ◌&&◌, List, [], ◌∷◌, arith,
  Text, Table, text_eq, text_eq_iff, lookup, put,
}
use keyholders.Sketch.Exact.{ExactSet, exact_set, member}
use keyholders.Sketch.Engine.{get, seed}
use keyholders.Sketch.Engine.Sets.{member-add_member, Distinct-add_member}
use keyholders.Sketch.Engine.Tables.{get-put}
use keyholders.Sketch.Engine.Rounds.{Plain, put-Plain}

-- A cold start: every node's set holds the node alone.
abbrev pub Cold : Table ExactSet → Type 0
Cold m = (v u : Text) → member (get exact_set m v) u ≡ (has_key m v && text_eq v u)

seed-Cold : (m : Table ExactSet) (n : Text) → Cold m → Cold (seed exact_set m n)
unfolding seed
seed-Cold m n c v u = ground (
  arith,
  has_key-put n (exact_set.add [] n) m v,
  get-put exact_set n (exact_set.add [] n) m v,
  member-add_member [] n u,
  c v u,
  text_eq_iff n v,
)

pub record Start (m : Table ExactSet) : Type 0 where
  pub cold : Cold m
  pub unique : Unique m
  pub plain : Plain m

seed-cases :
    (m : Table ExactSet) (n : Text)
    → (seed exact_set m n ≡ put n (exact_set.add [] n) m) ⊎ (seed exact_set m n ≡ m)
unfolding seed
seed-cases m n = ground arith

seed-Start : (m : Table ExactSet) (n : Text) → Start m → Start (seed exact_set m n)
seed-Start m n s = record {
  cold = seed-Cold m n s.cold;
  unique = elim (seed-cases m n) [
    | inl new ↦ rw new (put-Unique n (exact_set.add [] n) m s.unique)
    | inr old ↦ rw old s.unique
  ];
  plain = λ v. elim (seed-cases m n) [
    | inl new ↦ rw new (put-Plain n (exact_set.add [] n) m (Distinct-add_member [] n tt) s.plain v)
    | inr old ↦ rw old (s.plain v)
  ];
}

pub seeds-Start :
    (ns : List Text) (m : Table ExactSet) → Start m → Start (foldl (seed exact_set) m ns)
seeds-Start [] m s = s
seeds-Start (n ∷ ns) m s = seeds-Start ns (seed exact_set m n) (seed-Start m n s)

pub empty-Start : Start []
unfolding lookup
empty-Start = record { cold = λ v u. refl; unique = tt; plain = λ v. tt }
