-- ===== src/Query/Reach/UnionPass.antt =====
-- The whole union pass of internal/query/reach.go, and when it returns an answer.
use mathlib.Core.List.{foldl}
use keyholders.Base.{
  ℕ, zero, suc, ◌+◌, ◌≤◌, ◌≡◌, refl, subst, inl, inr, Bool, true, false, List, [], ◌∷◌, arith,
  List-cases, In, Text, lookup,
}
use keyholders.Query.Reach.{
  Edge, Entry, Options, Outcome, ok, err, expand_depth, Expander, Union, Pass, has, edges_at,
  read_edge, start_union, union_rounds, union_pass,
}
use keyholders.Query.Reach.Walk.{UnionWalk, from_source, along_edge}
use keyholders.Query.Reach.Reads.{foldl-Started, sourced-In, sourced_inv}
use keyholders.Query.Reach.Rounds.{Serves, Collects, Inv, Inv-round}

pub ok-injective {ℓ} : {A : Type ℓ} {a b : A} → ok a ≡ ok b → a ≡ b
ok-injective h = cc

-- A round that succeeded had an answer from the graph.
answered :
    (exp : Expander) (rounds depth : ℕ) (s : Union) (u : Text) (rest : List Text) (pass : Pass)
    → s.next ≡ u ∷ rest
    → union_rounds exp (suc rounds) depth s ≡ ok pass
    → (es : List Edge) × (exp s.next ≡ ok es)
      × (union_rounds exp rounds (suc depth) (foldl read_edge (record s { next = [] }) es)
          ≡ ok pass)
unfolding union_rounds
answered exp rounds depth s u rest pass e h =
    rw e (go (exp (u ∷ rest)) refl (rw (e, union_rounds) at h))
  where
    go :
        (o : Outcome (List Edge))
        → exp (u ∷ rest) ≡ o
        → (elim o as (λ x. Outcome Pass) [
          | err f ↦ err (expand_depth depth f)
          | ok es ↦
              union_rounds exp rounds (suc depth) (foldl read_edge (record s { next = [] }) es)
        ])
          ≡ ok pass
        → (es : List Edge) × (exp (u ∷ rest) ≡ ok es)
          × (union_rounds exp rounds (suc depth) (foldl read_edge (record s { next = [] }) es)
              ≡ ok pass)
    go (ok es) o k = (es, o, k)
    go (err f) o k = cc

module _ (sources : List Entry) (exp : Expander) (out : Text → List Edge)
    (serves : Serves exp out) where
  -- With an empty frontier every walk stays inside the nodes.
  whole :
      (d : ℕ) (s : Union)
      → Inv sources exp out serves d s
      → s.next ≡ []
      → (v : Text) (n : ℕ) → UnionWalk sources out n v
      → has s.nodes v ≡ true
  whole d s inv e v zero w = inv.complete v zero (omega arith) w
  whole d s inv e v (suc n) (along_edge {u} w edge m to) =
      elim (inv.closed u (whole d s inv e u n w)) [
        | inl waits ↦ elim (subst (In u) e waits) [ ]
        | inr all ↦ subst (λ x. has s.nodes x ≡ true) to (all edge m).1
      ]

  -- What the pass keeps of its variables.
  abbrev result : Union → ℕ → Bool → Pass
  result s depth truncated = record {
    nodes = s.nodes;
    edges = s.edges;
    depth = depth;
    truncated = truncated;
  }

  drained :
      (d k depth : ℕ) (s : Union)
      → Inv sources exp out serves d s
      → s.next ≡ []
      → Collects sources out (k + d) (result s depth false)
  drained d k depth s inv e = record {
    sound = λ v h. let (n, l, w) = inv.sound v h in (n, omega arith, w);
    complete = λ v n l w. whole d s inv e v n w;
    edges_sound = inv.edges_sound;
    edges_complete = λ v n edge l w m. elim (inv.closed v (whole d s inv e v n w)) [
      | inl waits ↦ elim (subst (In v) e waits) [ ]
      | inr all ↦ (all edge m).0
    ];
    whole = λ h v n w. whole d s inv e v n w;
  }

  bounded :
      (d depth : ℕ) (s : Union)
      → Inv sources exp out serves d s
      → Collects sources out d (result s depth true)
  bounded d depth s inv = record {
    sound = inv.sound;
    complete = inv.complete;
    edges_sound = inv.edges_sound;
    edges_complete = inv.edges_complete;
    whole = λ h. cc;
  }

  pub union_rounds-Collects :
      (rounds d depth : ℕ) (s : Union) (pass : Pass)
      → Inv sources exp out serves d s
      → union_rounds exp rounds depth s ≡ ok pass
      → Collects sources out (rounds + d) pass
  unfolding union_rounds
  union_rounds-Collects zero d depth s pass inv h = elim (List-cases s.next) [
    | inl e ↦
        subst (Collects sources out (0 + d)) (ok-injective (rw (e, union_rounds) at h))
          (drained d 0 depth s inv e)
    | inr (u, rest, e) ↦
        let shift : d ≡ 0 + d = omega arith in
        subst (λ n. Collects sources out n pass) shift
          (subst (Collects sources out d) (ok-injective (rw (e, union_rounds) at h))
            (bounded d depth s inv))
  ]
  union_rounds-Collects (suc rounds) d depth s pass inv h = elim (List-cases s.next) [
    | inl e ↦
        subst (Collects sources out (suc rounds + d)) (ok-injective (rw (e, union_rounds) at h))
          (drained d (suc rounds) depth s inv e)
    | inr (u, rest, e) ↦
        let (es, answer, k) = answered exp rounds depth s u rest pass e h in
        subst (λ n. Collects sources out n pass) (omega arith)
          (union_rounds-Collects rounds (suc d) (suc depth) _ pass
            (Inv-round sources exp out serves d s inv es answer) k)
  ]

  abbrev begin : Union
  begin = foldl start_union (record { nodes = []; edges = []; next = [] }) sources

  begins : (v : Text) (n : ℕ) → n ≤ zero → UnionWalk sources out n v → has begin.nodes v ≡ true
  begins v zero l (from_source s m e) =
      let started = foldl-Started (record { nodes = []; edges = []; next = [] }) sources in
      subst (λ x. has begin.nodes x ≡ true) e (ground (arith, started.holds s.urn, sourced-In m))
  begins v (suc n) l w = absurd (omega arith)

  Inv-begin : Inv sources exp out serves zero begin
  unfolding lookup
  Inv-begin =
      let started = foldl-Started (record { nodes = []; edges = []; next = [] }) sources in
      record {
        sound = λ v h.
            let (s, m, e) = sourced_inv sources v (ground (arith, started.holds v)) in
            (zero, omega arith, from_source s m e);
        complete = λ v n l w. begins v n l w;
        queued = λ v m. elim (started.source v m) [
          | inl old ↦ elim old [ ]
          | inr (s, k, e) ↦
              subst (λ x. has begin.nodes x ≡ true) e
                (ground (arith, started.holds s.urn, sourced-In k))
        ];
        edges_sound = λ v e m. elim (subst (λ t. In e (edges_at t v)) started.edges m) [ ];
        edges_complete = λ v n e l w m. absurd (omega arith);
        closed = λ v h. elim (started.fresh v h) [ inl old ↦ cc | inr new ↦ inl new ];
      }

  pub union_pass-Collects :
      (opts : Options) (pass : Pass)
      → union_pass exp sources opts ≡ ok pass
      → Collects sources out opts.max_depth pass
  unfolding union_pass
  union_pass-Collects opts pass h =
      let shift : opts.max_depth + 0 ≡ opts.max_depth = omega arith in
      subst (λ n. Collects sources out n pass) shift
        (union_rounds-Collects opts.max_depth zero 0 begin pass Inv-begin h)
