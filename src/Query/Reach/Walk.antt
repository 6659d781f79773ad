-- ===== src/Query/Reach/Walk.antt =====
-- The specification of the search: the walks whose source and edges all hold at one instant.
use keyholders.Base.{ℕ, zero, suc, ◌≡◌, Bool, true, false, List, Text, In}
use keyholders.Query.Interval.{Interval, contains}
use keyholders.Query.Reach.{Edge, Entry}

-- `Walk sources within blocked edges t n v`: at the instant `t` a path of `n` edges leads from a
-- source to `v`, and no node on it is blocked.
pub data Walk (sources : List Entry) (within : Interval) (blocked : Text → Bool)
    (edges : Text → List Edge) (t : ℕ) : ℕ → Text → Type 0 where
  start :
      {v : Text} (s : Entry)
      → In s sources
      → s.urn ≡ v
      → blocked v ≡ false
      → contains s.valid t ≡ true
      → contains within t ≡ true
      → Walk sources within blocked edges t zero v
  step :
      {n : ℕ} {u v : Text}
      → Walk sources within blocked edges t n u
      → (e : Edge) → In e (edges u)
      → e.to ≡ v
      → blocked v ≡ false
      → contains e.valid t ≡ true
      → Walk sources within blocked edges t (suc n) v

-- The same with the spans ignored: what a tool without intervals follows.
pub data UnionWalk (sources : List Entry) (edges : Text → List Edge) : ℕ → Text → Type 0 where
  from_source : {v : Text} (s : Entry) → In s sources → s.urn ≡ v → UnionWalk sources edges zero v
  along_edge :
      {n : ℕ} {u v : Text}
      → UnionWalk sources edges n u
      → (e : Edge) → In e (edges u)
      → e.to ≡ v
      → UnionWalk sources edges (suc n) v

-- Every walk at an instant is a walk of the union graph.
pub Walk-UnionWalk :
    {sources : List Entry} {within : Interval} {blocked : Text → Bool} {edges : Text → List Edge}
    {t n : ℕ} {v : Text}
    → Walk sources within blocked edges t n v
    → UnionWalk sources edges n v
Walk-UnionWalk (Walk.start s m e b h k) = from_source s m e
Walk-UnionWalk (Walk.step w e m to b h) = along_edge (Walk-UnionWalk w) e m to
