-- ===== src/Query/Reach/Answer.antt =====
-- `Reach` of internal/query/reach.go from end to end: when it returns, what it returns, and what its
-- errors say, over an expander that serves one graph.
use mathlib.Core.List.{foldl}
use keyholders.Base.{
  ℕ, zero, suc, ◌≤◌, ◌≡◌, refl, sym, subst, ◌∙◌, ◌↔◌, ◌⊎◌, inl, inr, Bool, true, false, List, [],
  ◌∷◌, arith, List-cases, Text,
}
use keyholders.Query.Interval.{holds_at}
use keyholders.Query.Reach.{
  Edge, Entry, Options, Outcome, ok, err, Error, Expander, Union, Pass, Result, has, set_at,
  edges_at, read_edge, replay, union_rounds, union_pass, set_defaults, reach, count_intervals,
}
use keyholders.Query.Reach.Walk.{Walk, start, step, UnionWalk, Walk-UnionWalk}
use keyholders.Query.Reach.Exact.{replay_exact}
use keyholders.Query.Reach.Rounds.{Serves, Collects}
use keyholders.Query.Reach.UnionPass.{union_pass-Collects, ok-injective}

-- The graph answers every read.
abbrev pub Answers : Expander → Type 0
Answers exp = (urns : List Text) → (es : List Edge) × (exp urns ≡ ok es)

abbrev unblocked : Text → Bool
unblocked u = false

union_rounds_return :
    (exp : Expander)
    → Answers exp
    → (rounds depth : ℕ) (s : Union) → (pass : Pass) × (union_rounds exp rounds depth s ≡ ok pass)
unfolding union_rounds
union_rounds_return exp answers zero depth s = (_, refl)
union_rounds_return exp answers (suc rounds) depth s = elim (List-cases s.next) [
  | inl e ↦ (
    record { nodes = s.nodes; edges = s.edges; depth = depth; truncated = false },
    rw (e, union_rounds) refl,
  )
  | inr (u, rest, e) ↦
      let (es, answer) = answers (u ∷ rest) in
      let (pass, k) =
        union_rounds_return exp answers rounds (suc depth)
          (foldl read_edge (record s { next = [] }) es) in
      (pass, rw (e, answer, union_rounds) k)
]

-- What `Reach` builds from a pass.
answer_of : List Entry → Options → Pass → Result
answer_of sources opts pass =
    let found = replay sources opts (edges_at pass.edges) unblocked in
    record {
      coexistence = found.reached;
      union = pass.nodes;
      depth = pass.depth;
      truncated = pass.truncated;
      edges = pass.edges;
      sources = sources;
      opts = opts;
      intervals = count_intervals found.reached;
      frontiers = found.frontiers;
    }

reach_ok :
    (exp : Expander) (sources : List Entry) (options : Options) (pass : Pass)
    → union_pass exp sources (set_defaults options) ≡ ok pass
    → reach exp sources options ≡ ok (answer_of sources (set_defaults options) pass)
unfolding reach answer_of
reach_ok exp sources options pass h = rw (h, reach) refl

reach_cases :
    (exp : Expander) (sources : List Entry) (options : Options) (o : Outcome Pass)
    → union_pass exp sources (set_defaults options) ≡ o
    → ((pass : Pass) × (o ≡ ok pass)
        × (reach exp sources options ≡ ok (answer_of sources (set_defaults options) pass)))
      ⊎ ((e : Error) × (o ≡ err e) × (reach exp sources options ≡ err e))
unfolding reach
reach_cases exp sources options (ok pass) h = inl (pass, refl, reach_ok exp sources options pass h)
reach_cases exp sources options (err e) h = inr (e, refl, rw (h, reach) refl)

-- When the graph answers every read, `Reach` returns a result.
pub reach_returns :
    (exp : Expander) (sources : List Entry) (options : Options)
    → Answers exp
    → (r : Result) × (reach exp sources options ≡ ok r)
unfolding union_pass
reach_returns exp sources options answers =
    let (pass, h) = union_rounds_return exp answers (set_defaults options).max_depth 0 _ in
    (_, reach_ok exp sources options pass h)

ok≢err {ℓ} : {A : Type ℓ} {a : A} {e : Error} → ok a ≡ err e → ⊥
ok≢err h = cc

-- What `Reach` answers came from a pass that answered.
reach-eq-ok :
    (exp : Expander) (sources : List Entry) (options : Options) (r : Result)
    → reach exp sources options ≡ ok r
    → (pass : Pass) × (union_pass exp sources (set_defaults options) ≡ ok pass)
      × (r ≡ answer_of sources (set_defaults options) pass)
reach-eq-ok exp sources options r h =
    elim (reach_cases exp sources options (union_pass exp sources (set_defaults options)) refl) [
      | inl (pass, e, k) ↦ (pass, e, ok-injective (sym h ∙ k))
      | inr (e, _, k) ↦ absurd (ok≢err (sym h ∙ k))
    ]

-- A walk in the graph is a walk in the edges that the pass kept, and the other way round.
module _ (sources : List Entry) (out : Text → List Edge) (opts : Options) (pass : Pass)
    (blocked : Text → Bool) (c : Collects sources out opts.max_depth pass) where
  abbrev Kept : ℕ → ℕ → Text → Type 0
  Kept = Walk sources opts.within blocked (edges_at pass.edges)

  to_graph : {t n : ℕ} {v : Text} → Kept t n v → Walk sources opts.within blocked out t n v
  to_graph (start s m e b h k) = start s m e b h k
  to_graph (step {u} w e m to b h) = step (to_graph w) e (c.edges_sound u e m) to b h

  to_kept :
      {t : ℕ} (n : ℕ) {v : Text}
      → n ≤ opts.max_depth
      → Walk sources opts.within blocked out t n v
      → Kept t n v
  to_kept zero l (start s m e b h k) = start s m e b h k
  to_kept (suc n) l (step {u} w e m to b h) =
      step (to_kept n (omega arith) w) e (c.edges_complete u n e (omega arith) (Walk-UnionWalk w) m)
        to b h

-- A replay of the edges that a result kept, with some nodes taken out, follows exactly the walks of
-- the graph around those nodes.
pub without_exact :
    (exp : Expander) (out : Text → List Edge) (sources : List Entry) (options : Options)
    (r : Result) (blocked : Text → Bool) (v : Text) (t : ℕ)
    → Serves exp out
    → reach exp sources options ≡ ok r
    → (holds_at (set_at (replay r.sources r.opts (edges_at r.edges) blocked).reached v) t ≡ true)
      ↔ ((n : ℕ) × (n ≤ (set_defaults options).max_depth)
          × Walk sources (set_defaults options).within blocked out t n v)
unfolding answer_of
without_exact exp out sources options r blocked v t serves h =
    let (pass, e, same) = reach-eq-ok exp sources options r h in
    let opts = set_defaults options in
    let c = union_pass-Collects sources exp out serves opts pass e in
    let exact = replay_exact sources opts (edges_at pass.edges) blocked v t in
    rw same (
      λ g. let (n, l, w) = exact.0 g in (n, l, to_graph sources out opts pass blocked c w),
      λ (n, l, w). exact.1 (n, l, to_kept sources out opts pass blocked c n l w),
    )

-- The coexistence answer is such a replay with nothing taken out.
pub coexistence-replay :
    (exp : Expander) (sources : List Entry) (options : Options) (r : Result)
    → reach exp sources options ≡ ok r
    → r.coexistence ≡ (replay r.sources r.opts (edges_at r.edges) (λ _. false)).reached
unfolding answer_of
coexistence-replay exp sources options r h =
    let (pass, e, same) = reach-eq-ok exp sources options r h in rw same refl

-- When the reads answer from one graph and `Reach` returns a result, a node is in its coexistence
-- answer at an instant exactly when a walk of that graph, of at most the depth bound, leads there
-- from a source, with the source, the question and every edge valid at that instant; the bound and
-- the question are those with the defaults filled in.
pub reach_exact :
    (exp : Expander) (out : Text → List Edge) (sources : List Entry) (options : Options)
    (r : Result) (v : Text) (t : ℕ)
    → Serves exp out
    → reach exp sources options ≡ ok r
    → (holds_at (set_at r.coexistence v) t ≡ true) ↔ (
        (n : ℕ) × (n ≤ (set_defaults options).max_depth)
        × Walk sources (set_defaults options).within (λ _. false) out t n v)
reach_exact exp out sources options r v t serves h =
    let same = coexistence-replay exp sources options r h in
    let exact = without_exact exp out sources options r (λ _. false) v t serves h in
    subst
      (λ m. (holds_at (set_at m v) t ≡ true) ↔ (
        (n : ℕ) × (n ≤ (set_defaults options).max_depth)
        × Walk sources (set_defaults options).within (λ _. false) out t n v))
      (sym same) exact

-- When the reads answer from one graph and `Reach` returns a result, its union answer holds exactly
-- the ends of walks of at most the depth bound, spans ignored; and if the search was not truncated,
-- the union answer holds the ends of all walks, of any length.
pub reach_union :
    (exp : Expander) (out : Text → List Edge) (sources : List Entry) (options : Options)
    (r : Result) (v : Text)
    → Serves exp out
    → reach exp sources options ≡ ok r
    → ((has r.union v ≡ true)
        ↔ ((n : ℕ) × (n ≤ (set_defaults options).max_depth) × UnionWalk sources out n v))
      × (r.truncated ≡ false → (n : ℕ) → UnionWalk sources out n v → has r.union v ≡ true)
unfolding answer_of
reach_union exp out sources options r v serves h =
    let (pass, e, same) = reach-eq-ok exp sources options r h in
    let c = union_pass-Collects sources exp out serves (set_defaults options) pass e in
    rw same ((c.sound v, λ (n, l, w). c.complete v n l w), λ k n w. c.whole k v n w)

-- When the reads answer from one graph and `Reach` returns a result, a node that the coexistence
-- answer holds at some instant is in the union answer.
pub coexistence-union :
    (exp : Expander) (out : Text → List Edge) (sources : List Entry) (options : Options)
    (r : Result) (v : Text) (t : ℕ)
    → Serves exp out
    → reach exp sources options ≡ ok r
    → holds_at (set_at r.coexistence v) t ≡ true
    → has r.union v ≡ true
coexistence-union exp out sources options r v t serves h g =
    let (n, l, w) = (reach_exact exp out sources options r v t serves h).0 g in
    (reach_union exp out sources options r v serves h).0.1 (n, l, Walk-UnionWalk w)
