-- ===== src/Query/Reach/Exact.antt =====
-- The replay of internal/query/reach.go reaches a node at an instant exactly when a walk of at most
-- the allowed number of edges leads there, all of it valid at that instant.
use mathlib.Core.List.{foldl}
use keyholders.Base.{
  ℕ, zero, suc, ◌+◌, ◌≤◌, ◌≡◌, sym, ap, ◌∙◌, subst, ◌↔◌, ◌⊎◌, inl, inr, Bool, true, false, List, [],
  ◌∷◌, arith, map, lookup, In, In-map, In-map_inv, Text, Table,
}
use keyholders.Query.Interval.{Interval, Set, contains, holds_at}
use keyholders.Query.Interval.Covers.{contains-intersect}
use keyholders.Query.Reach.{Edge, Entry, Search, Options, set_at, level, levels, seed, replay}
use keyholders.Query.Reach.Walk.{Walk, start, step}
use keyholders.Query.Reach.Offers.{held, Maximal, Offered}
use keyholders.Query.Reach.Levels.{
  within_span, hits_any-In, spread, In-spread, In-spread_inv, level-Offered, seeds-Offered,
}

module _ (sources : List Entry) (within : Interval) (blocked : Text → Bool)
    (edges : Text → List Edge) where
  abbrev W : ℕ → ℕ → Text → Type 0
  W = Walk sources within blocked edges

  -- The successors of a node at an instant are reached.
  abbrev Closed : Table Set → Text → ℕ → Type 0
  Closed reached v t =
      (e : Edge)
      → In e (edges v)
      → blocked e.to ≡ false
      → contains e.valid t ≡ true
      → held reached e.to t ≡ true

  -- The state after `d` levels.
  record Inv (d : ℕ) (reached : Table Set) (frontier : List Entry) : Type 0 where
    maximal : Maximal reached
    sound : (v : Text) (t : ℕ) → held reached v t ≡ true → (n : ℕ) × (n ≤ d) × W t n v
    complete : (v : Text) (t n : ℕ) → n ≤ d → W t n v → held reached v t ≡ true
    front : (c : Entry) → In c frontier → (t : ℕ) → contains c.valid t ≡ true → W t d c.urn
    closed :
        (v : Text) (t : ℕ)
        → held reached v t ≡ true
        → ((c : Entry) × In c frontier × (c.urn ≡ v) × (contains c.valid t ≡ true))
          ⊎ Closed reached v t

  module _ (d : ℕ) (reached : Table Set) (frontier : List Entry)
      (inv : Inv d reached frontier) where
    abbrev after : Search
    after = level blocked edges reached frontier

    done :
        Offered blocked
          (spread blocked edges frontier)
          (record { reached = reached; next = [] })
          after
    done = level-Offered blocked edges reached frontier inv.maximal

    keeps : (v : Text) (t : ℕ) → held reached v t ≡ true → held after.reached v t ≡ true
    keeps v t h = ground (arith, done.holds v t)

    expands :
        (c : Entry) (t : ℕ)
        → In c frontier
        → contains c.valid t ≡ true
        → Closed after.reached c.urn t
    expands c t m h e k b g =
        let hit =
          hits_any-In blocked t (In-spread blocked edges m k) b
            (contains-intersect c.valid e.valid t ∙ ground arith) in
        ground (arith, done.holds e.to t, hit)

    next_walk :
        (c : Entry) → In c after.next → (t : ℕ) → contains c.valid t ≡ true → W t (suc d) c.urn
    next_walk c m t h = elim (done.source c m) [
      | inl old ↦ elim old [ ]
      | inr (k, b) ↦
          let (entry, n, rest) = In-spread_inv blocked edges frontier k in
          let (e, l, same) = rest in
          let inside =
            sym (contains-intersect entry.valid e.valid t)
            ∙ subst (λ x. contains x.valid t ≡ true) same h in
          step (inv.front entry n t (ground arith)) e l (ap (λ x. x.urn) (sym same)) b
            (ground arith)
    ]

    closes : (v : Text) (t : ℕ) → held reached v t ≡ true → Closed after.reached v t
    closes v t h = elim (inv.closed v t h) [
      | inl (c, m, e, k) ↦ subst (λ u. Closed after.reached u t) e (expands c t m k)
      | inr all ↦ λ e k b g. keeps e.to t (all e k b g)
    ]

    finds : (v : Text) (t n : ℕ) → n ≤ suc d → W t n v → held after.reached v t ≡ true
    finds v t zero h w = keeps v t (inv.complete v t zero (omega arith) w)
    finds v t (suc n) h (step {u} w e m to b g) =
        subst (λ x. held after.reached x t ≡ true) to
          (closes u t (inv.complete u t n (omega arith) w) e m (ap blocked to ∙ b) g)

    Inv-level : Inv (suc d) after.reached after.next
    Inv-level = record {
      maximal = done.maximal;
      sound = λ v t h. elim (done.fresh v t h) [
        | inl old ↦ let (n, l, w) = inv.sound v t old in (n, omega arith, w)
        | inr (c, m, e, k) ↦ (suc d, omega arith, subst (W t (suc d)) e (next_walk c m t k))
      ];
      complete = finds;
      front = next_walk;
      closed =
          λ v t h. elim (done.fresh v t h) [ inl old ↦ inr (closes v t old) | inr new ↦ inl new ];
    }

  -- What the replay claims of a table: the nodes and instants at the end of walks of at most `d`
  -- edges.
  abbrev Reaches : ℕ → Table Set → Type 0
  Reaches d reached = (v : Text) (t : ℕ) → (held reached v t ≡ true) ↔ ((n : ℕ) × (n ≤ d) × W t n v)

  -- With an empty frontier the reached nodes are closed, whatever the length of the walk.
  stops :
      (d : ℕ) (reached : Table Set)
      → Inv d reached []
      → (v : Text) (t n : ℕ) → W t n v
      → held reached v t ≡ true
  stops d reached inv v t zero w = inv.complete v t zero (omega arith) w
  stops d reached inv v t (suc n) (step {u} w e m to b g) =
      elim (inv.closed u t (stops d reached inv u t n w)) [
        | inl (c, k, _, _) ↦ elim k [ ]
        | inr all ↦ subst (λ x. held reached x t ≡ true) to (all e m (ap blocked to ∙ b) g)
      ]

  levels-Reaches :
      (rounds d depth : ℕ) (reached : Table Set) (frontier : List Entry)
      → Inv d reached frontier
      → Reaches (rounds + d) (levels blocked edges rounds depth reached frontier).reached
  unfolding levels
  levels-Reaches zero d depth reached frontier inv v t = (
    λ h. let (n, l, w) = inv.sound v t h in (n, omega arith, w),
    λ (n, l, w). inv.complete v t n (omega arith) w,
  )
  levels-Reaches (suc rounds) d depth reached [] inv v t = (
    λ h. let (n, l, w) = inv.sound v t h in (n, omega arith, w),
    λ (n, l, w). stops d reached inv v t n w,
  )
  levels-Reaches (suc rounds) d depth reached (e ∷ frontier) inv v t =
      let s = level blocked edges reached (e ∷ frontier) in
      let rest =
        levels-Reaches rounds (suc d) (suc depth) s.reached s.next
          (Inv-level d reached (e ∷ frontier) inv) v t in
      (
        λ h. let (n, l, w) = rest.0 h in (n, omega arith, w),
        λ (n, l, w). rest.1 (n, omega arith, w),
      )

  abbrev blank : Search
  blank = record { reached = []; next = [] }

  seeded :
      Offered blocked
        (map (within_span within) sources)
        blank
        (foldl (seed blocked within) blank sources)
  unfolding lookup
  seeded = seeds-Offered blocked within blank sources (λ v. tt)

  -- A source reaches itself while it exists and the question asks.
  seed_walk :
      (c : Entry) (t : ℕ)
      → In c (map (within_span within) sources)
      → blocked c.urn ≡ false
      → contains c.valid t ≡ true
      → W t zero c.urn
  seed_walk c t m b h =
      let (s, k, same) = In-map_inv (within_span within) sources m in
      let inside =
        sym (contains-intersect s.valid within t) ∙ subst (λ x. contains x.valid t ≡ true) same h in
      start s k (ap (λ x. x.urn) (sym same)) b (ground arith) (ground arith)

  starts :
      (v : Text) (t n : ℕ)
      → n ≤ zero
      → W t n v
      → held (foldl (seed blocked within) blank sources).reached v t ≡ true
  starts v t zero l (start s m e b h k) =
      let hit =
        hits_any-In blocked t (In-map (within_span within) m) (ap blocked e ∙ b)
          (contains-intersect s.valid within t ∙ ground arith) in
      subst (λ x. held (foldl (seed blocked within) blank sources).reached x t ≡ true) e
        (ground (arith, seeded.holds s.urn t, hit))
  starts v t (suc n) l w = absurd (omega arith)

  Inv-start : let s = foldl (seed blocked within) blank sources in Inv zero s.reached s.next
  unfolding lookup
  Inv-start = record {
    maximal = seeded.maximal;
    sound = λ v t h. elim (seeded.fresh v t h) [
      | inl old ↦ cc
      | inr (c, m, e, k) ↦ elim (seeded.source c m) [
        | inl old ↦ elim old [ ]
        | inr (l, b) ↦ (zero, omega arith, subst (W t zero) e (seed_walk c t l b k))
      ]
    ];
    complete = λ v t n l w. starts v t n l w;
    front = λ c m t h. elim (seeded.source c m) [
      | inl old ↦ elim old [ ]
      | inr (l, b) ↦ seed_walk c t l b h
    ];
    closed = λ v t h. elim (seeded.fresh v t h) [ inl old ↦ cc | inr new ↦ inl new ];
  }

-- The replay reaches a node at an instant exactly when a walk of at most the allowed number of
-- edges leads there from a source, with the source, the question and every edge valid at that
-- instant, and no node of the walk blocked.
pub replay_exact :
    (sources : List Entry) (opts : Options) (edges : Text → List Edge) (blocked : Text → Bool)
    (v : Text) (t : ℕ)
    → (holds_at (set_at (replay sources opts edges blocked).reached v) t ≡ true)
      ↔ ((n : ℕ) × (n ≤ opts.max_depth) × Walk sources opts.within blocked edges t n v)
unfolding replay
replay_exact sources opts edges blocked v t =
    let s = foldl (seed blocked opts.within) (blank sources opts.within blocked edges) sources in
    let rest =
      levels-Reaches sources opts.within blocked edges opts.max_depth zero 1 s.reached s.next
        (Inv-start sources opts.within blocked edges) v t in
    (λ h. let (n, l, w) = rest.0 h in (n, omega arith, w), λ (n, l, w). rest.1 (n, omega arith, w))
