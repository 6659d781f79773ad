-- ===== src/Query/Reach/Rounds.antt =====
-- The rounds of the union pass of internal/query/reach.go: they collect the nodes at the end of
-- walks of at most `max_depth` edges, and the edges of all nodes that a shorter walk reaches.
use mathlib.Core.List.{foldl}
use keyholders.Base.{
  ℕ, zero, suc, ◌≤◌, ◌<◌, ◌≡◌, subst, ◌⊎◌, inl, inr, true, false, List, [], arith, Bool-cases, In,
  Text,
}
use keyholders.Query.Reach.{Edge, Entry, ok, Expander, Union, Pass, has, edges_at, read_edge}
use keyholders.Query.Reach.Walk.{UnionWalk, along_edge}
use keyholders.Query.Reach.Reads.{Read, foldl-Read, leads_to-In, leads_to_inv}

-- The expander answers from one graph: an answer holds exactly the edges out of the nodes asked.
pub record Serves (exp : Expander) (out : Text → List Edge) : Type 0 where
  pub complete :
      (urns : List Text) (es : List Edge) (u : Text) (e : Edge)
      → exp urns ≡ ok es
      → In u urns
      → In e (out u)
      → In e es × (e.from ≡ u)
  pub sound :
      (urns : List Text) (es : List Edge) (e : Edge)
      → exp urns ≡ ok es
      → In e es
      → In e.from urns × In e (out e.from)

-- What a pass claims: `d` bounds the length of the walks.
pub record Collects (sources : List Entry) (out : Text → List Edge) (d : ℕ) (pass : Pass)
    : Type 0 where
  pub sound : (v : Text) → has pass.nodes v ≡ true → (n : ℕ) × (n ≤ d) × UnionWalk sources out n v
  pub complete : (v : Text) (n : ℕ) → n ≤ d → UnionWalk sources out n v → has pass.nodes v ≡ true
  pub edges_sound : (v : Text) (e : Edge) → In e (edges_at pass.edges v) → In e (out v)
  pub edges_complete :
      (v : Text) (n : ℕ) (e : Edge)
      → n < d
      → UnionWalk sources out n v
      → In e (out v)
      → In e (edges_at pass.edges v)
  pub whole :
      pass.truncated ≡ false
      → (v : Text) (n : ℕ) → UnionWalk sources out n v
      → has pass.nodes v ≡ true

module _ (sources : List Entry) (exp : Expander) (out : Text → List Edge)
    (serves : Serves exp out) where
  abbrev pub W : ℕ → Text → Type 0
  W = UnionWalk sources out

  pub record Inv (d : ℕ) (s : Union) : Type 0 where
    pub sound : (v : Text) → has s.nodes v ≡ true → (n : ℕ) × (n ≤ d) × W n v
    pub complete : (v : Text) (n : ℕ) → n ≤ d → W n v → has s.nodes v ≡ true
    pub queued : (v : Text) → In v s.next → has s.nodes v ≡ true
    pub edges_sound : (v : Text) (e : Edge) → In e (edges_at s.edges v) → In e (out v)
    pub edges_complete :
        (v : Text) (n : ℕ) (e : Edge) → n < d → W n v → In e (out v) → In e (edges_at s.edges v)
    pub closed :
        (v : Text)
        → has s.nodes v ≡ true
        → In v s.next
          ⊎ ((e : Edge) → In e (out v) → In e (edges_at s.edges v) × (has s.nodes e.to ≡ true))

  module _ (d : ℕ) (s : Union) (inv : Inv d s) (es : List Edge) (answer : exp s.next ≡ ok es) where
    abbrev pub after : Union
    after = foldl read_edge (record s { next = [] }) es

    reads : Read es (record s { next = [] }) after
    reads = foldl-Read (record s { next = [] }) es

    keeps : (v : Text) → has s.nodes v ≡ true → has after.nodes v ≡ true
    keeps v h = ground (arith, reads.holds v)

    -- Every old node has its edges kept and their targets known.
    closes :
        (v : Text)
        → has s.nodes v ≡ true
        → (e : Edge) → In e (out v)
        → In e (edges_at after.edges v) × (has after.nodes e.to ≡ true)
    closes v h e m = elim (inv.closed v h) [
      | inl waits ↦
          let (k, same) = serves.complete s.next es v e answer waits m in
          (
            subst (λ x. In e (edges_at after.edges x)) same (reads.edges_new e k),
            ground (arith, reads.holds e.to, leads_to-In k),
          )
      | inr all ↦ let (k, h') = all e m in (reads.edges_keep v e k, keeps e.to h')
    ]

    reached_by : (v : Text) → has after.nodes v ≡ true → (n : ℕ) × (n ≤ suc d) × W n v
    reached_by v h = elim (Bool-cases (has s.nodes v)) [
      | inl old ↦ let (n, l, w) = inv.sound v old in (n, omega arith, w)
      | inr new ↦
          let (e, m, to) = leads_to_inv es v (ground (arith, reads.holds v)) in
          let (asked, k) = serves.sound s.next es e answer m in
          let (n, l, w) = inv.sound e.from (inv.queued e.from asked) in
          (suc n, omega arith, along_edge w e k to)
    ]

    finds : (v : Text) (n : ℕ) → n ≤ suc d → W n v → has after.nodes v ≡ true
    finds v zero l w = keeps v (inv.complete v zero (omega arith) w)
    finds v (suc n) l (along_edge {u} w e m to) =
        subst (λ x. has after.nodes x ≡ true) to (closes u (inv.complete u n (omega arith) w) e m).1

    pub Inv-round : Inv (suc d) after
    Inv-round = record {
      sound = reached_by;
      complete = finds;
      queued = λ v m. elim (reads.source v m) [
        | inl old ↦ elim old [ ]
        | inr (e, k, to) ↦
            subst (λ x. has after.nodes x ≡ true) to
              (ground (arith, reads.holds e.to, leads_to-In k))
      ];
      edges_sound = λ v e m. elim (reads.edges_source v e m) [
        | inl old ↦ inv.edges_sound v e old
        | inr (k, same) ↦ subst (λ x. In e (out x)) same (serves.sound s.next es e answer k).1
      ];
      edges_complete = λ v n e l w m. (closes v (inv.complete v n (omega arith) w) e m).0;
      closed = λ v h. elim (reads.fresh v h) [ inl old ↦ inr (closes v old) | inr new ↦ inl new ];
    }
