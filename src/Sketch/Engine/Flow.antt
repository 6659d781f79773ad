-- ===== src/Sketch/Engine/Flow.antt =====
-- Reachability along the edges of one epoch, which internal/sketch/sketch.go computes.
use keyholders.Base.{
  ◌≡◌, true, List, [], ◌∷◌, ◌++◌, In, arith, any, any-append, In-any, Text, Table, text_eq,
  text_eq_refl,
}
use keyholders.Sketch.Exact.{ExactSet, exact_set, member}
use keyholders.Sketch.Engine.{Edge, get, endpoints}
use keyholders.Sketch.Engine.Tables.{names}
use keyholders.Sketch.Engine.Rounds.{feeds}

-- The node `u` reaches `v` along the edges.
pub data Flows (nodes : List Text) (edges : List Edge) (u : Text) : Text → Type 0 where
  itself : names (nodes ++ endpoints edges) u ≡ true → Flows nodes edges u u
  along :
      {w v : Text} (e : Edge)
      → In e edges
      → e.from ≡ w
      → e.to ≡ v
      → Flows nodes edges u w
      → Flows nodes edges u v

-- A source and a target are endpoints.
endpoints-In :
    (edges : List Edge) (e : Edge)
    → In e edges
    → (names (endpoints edges) e.from ≡ true) × (names (endpoints edges) e.to ≡ true)
unfolding endpoints
endpoints-In [] e m = elim m [ ]
endpoints-In (e ∷ edges) _ In.head =
    (ground (arith, text_eq_refl e.from), ground (arith, text_eq_refl e.to))
endpoints-In (d ∷ edges) e (In.tail m) =
    let (a, b) = endpoints-In edges e m in (ground (arith, a), ground (arith, b))

pub endpoint :
    (nodes : List Text) (edges : List Edge) (e : Edge)
    → In e edges
    → (names (nodes ++ endpoints edges) e.from ≡ true)
      × (names (nodes ++ endpoints edges) e.to ≡ true)
endpoint nodes edges e m =
    let (a, b) = endpoints-In edges e m in
    (
      ground (arith, any-append (λ (n : Text). text_eq n e.from) nodes (endpoints edges), a),
      ground (arith, any-append (λ (n : Text). text_eq n e.to) nodes (endpoints edges), b),
    )

-- One edge brings what its source has.
pub brought :
    (edges : List Edge) (cur : Table ExactSet) (e : Edge) (u : Text)
    → In e edges
    → member (get exact_set cur e.from) u ≡ true
    → any (feeds cur e.to u) edges ≡ true
brought edges cur e u m h = In-any (feeds cur e.to u) e m (ground (arith, text_eq_refl e.to, h))
