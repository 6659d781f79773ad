-- ===== src/Sketch/Engine/Fixpoint.antt =====
-- The whole loop of internal/sketch/sketch.go over exact sets.
use keyholders.Base.{
  Unique, has_key, ℕ, zero, suc, ◌+◌, ◌*◌, ◌≤◌, ◌<◌, ◌≡◌, refl, ◌∙◌, ◌↔◌, inl, inr, ◌⊎◌, sym, subst,
  true, false, ◌&&◌, ◌||◌, List, [], ◌++◌, Option, some, In, arith, Bool-cases, any, any-In, concat,
  length, Text, Table, text_eq, text_eq_iff, text_eq_refl,
}
use keyholders.Sketch.Exact.{ExactSet, exact_set, member}
use keyholders.Sketch.Engine.{
  Edge, get, round, changed, propagate, run_epoch, seeds, endpoints, split_edges,
}
use keyholders.Sketch.Engine.Chunks.{concat-split_edges}
use keyholders.Sketch.Engine.Sets.{Distinct, length-le, member_of_length}
use keyholders.Sketch.Engine.Tables.{names, has_key-seeds, unchanged, changed_at}
use keyholders.Sketch.Engine.Keys.{targets, has_key-round}
use keyholders.Sketch.Engine.Rounds.{Plain, feeds, member-round, round-Plain, round-Unique}
use keyholders.Sketch.Engine.Bound.{total, Within, total-lt, total-bound}
use keyholders.Sketch.Engine.Flow.{Flows, endpoint, brought}
use keyholders.Sketch.Engine.Start.{seeds-Start, empty-Start}

module _ (nodes : List Text) (edges : List Edge) (parts : List (List Edge))
    (split : concat parts ≡ edges) where
  abbrev ns : List Text
  ns = nodes ++ endpoints edges

  -- What holds of the maps before every round.
  record Going (cur : Table ExactSet) : Type 0 where
    keys : (v : Text) → has_key cur v ≡ names ns v
    unique : Unique cur
    plain : Plain cur
    flows : (v u : Text) → member (get exact_set cur v) u ≡ true → Flows nodes edges u v
    grows : Within cur (round exact_set parts cur)

  held :
      (cur : Table ExactSet) (v u : Text)
      → member (get exact_set (round exact_set parts cur) v) u
        ≡ ((has_key cur v && text_eq v u) || any (feeds cur v u) edges)
  held cur v u =
      subst
        (λ es.
          member (get exact_set (round exact_set parts cur) v) u
          ≡ ((has_key cur v && text_eq v u) || any (feeds cur v u) es))
        split (member-round parts cur v u)

  kept :
      (cur : Table ExactSet)
      → ((v : Text) → has_key cur v ≡ names ns v)
      → (v : Text) → has_key (round exact_set parts cur) v ≡ names ns v
  kept cur k v = has_key-round exact_set parts cur v target ∙ k v
    where
      target : targets (concat parts) v ≡ true → has_key cur v ≡ true
      target h =
          let (e, m, q) =
            any-In (λ (e : Edge). text_eq e.to v) edges
              (subst (λ es. targets es v ≡ true) split h) in
          k v
          ∙ subst (λ w. names ns w ≡ true) ((text_eq_iff e.to v).0 q) ((endpoint nodes edges e m).1)

  came :
      (cur : Table ExactSet) (v u : Text)
      → member (get exact_set (round exact_set parts cur) v) u ≡ true
      → ((has_key cur v ≡ true) × (v ≡ u))
        ⊎ ((e : Edge) × In e edges × (e.to ≡ v) × (member (get exact_set cur e.from) u ≡ true))
  came cur v u h = elim (Bool-cases (any (feeds cur v u) edges)) [
    | inr no_edge ↦
        inl (ground (arith, held cur v u), ground (arith, held cur v u, text_eq_iff v u))
    | inl some_edge ↦
        let (e, m, q) = any-In (feeds cur v u) edges some_edge in
        inr (e, m, ground (arith, q, text_eq_iff e.to v), ground (arith, q))
  ]

  round-Within :
      (cur next : Table ExactSet)
      → ((v : Text) → has_key cur v ≡ has_key next v)
      → Within cur next
      → Within (round exact_set parts cur) (round exact_set parts next)
  round-Within cur next k w v u h = held next v u ∙ elim (came cur v u h) [
    | inl (here, e) ↦ ground (arith, k v, here, text_eq_iff v u, e)
    | inr (e, m, q, s) ↦
        let b =
          subst (λ t. any (feeds next t u) edges ≡ true) q
            (brought edges next e u m (w e.from u s)) in
        ground (arith, b)
  ]

  round-Going : (cur : Table ExactSet) → Going cur → Going (round exact_set parts cur)
  round-Going cur g = record {
    keys = kept cur g.keys;
    unique = round-Unique parts cur g.unique;
    plain = round-Plain parts cur;
    flows = λ v u h. elim (came cur v u h) [
      | inl (here, e) ↦
          subst (λ w. Flows nodes edges u w) (sym e)
            (Flows.itself (origin u (subst (λ w. has_key cur w ≡ true) e here)))
      | inr (e, m, q, s) ↦ Flows.along e m refl q (g.flows e.from u s)
    ];
    grows =
        round-Within cur (round exact_set parts cur) (λ v. g.keys v ∙ sym (kept cur g.keys v))
          g.grows;
  }
    where
      origin : (u : Text) → has_key cur u ≡ true → names (nodes ++ endpoints edges) u ≡ true
      origin u h = unfold ns in (sym (g.keys u) ∙ h)

  origin : (u : Text) {v : Text} → Flows nodes edges u v → names ns u ≡ true
  origin u (Flows.itself h) = h
  origin u (Flows.along e m p q f) = origin u f

  bounded : (cur : Table ExactSet) → Going cur → total cur ns ≤ length ns * length ns
  bounded cur g = total-bound cur ns ns g.plain (λ v u h. origin u (g.flows v u h))

  -- A round that changes a count adds a member.
  larger :
      (cur : Table ExactSet)
      → Going cur
      → changed exact_set cur (round exact_set parts cur) ≡ true
      → total cur ns < total (round exact_set parts cur) ns
  larger cur g h =
      let next = round exact_set parts cur in
      let (v, k, e) = changed_at exact_set cur next (round-Unique parts cur g.unique) h in
      let l = length-le (get exact_set cur v) (get exact_set next v) (g.plain v) (g.grows v) in
      total-lt cur next ns v g.plain g.grows (sym (kept cur g.keys v) ∙ k) (ground (arith, l, e))

  -- After a round that changes no count, the sets hold all that reaches their nodes.
  closed :
      (cur : Table ExactSet)
      → Going cur
      → changed exact_set cur (round exact_set parts cur) ≡ false
      → (u : Text) {v : Text} → Flows nodes edges u v
      → member (get exact_set (round exact_set parts cur) v) u ≡ true
  closed cur g h u (Flows.itself i) =
      held cur u u ∙ ground (arith, text_eq_refl u, g.keys u, origin u (Flows.itself i))
  closed cur g h u {v} (Flows.along e m p q f) =
      let next = round exact_set parts cur in
      let there =
        subst (λ t. member (get exact_set next t) u ≡ true) (sym p) (closed cur g h u f) in
      let same =
        unchanged exact_set cur next e.from (round-Unique parts cur g.unique) h
          (kept cur g.keys e.from ∙ (endpoint nodes edges e m).0) in
      let before =
        member_of_length (get exact_set cur e.from) (get exact_set next e.from) u (g.plain e.from)
          (g.grows e.from) (sym same) there in
      let b = subst (λ t. any (feeds cur t u) edges ≡ true) q (brought edges cur e u m before) in
      held cur v u ∙ ground (arith, b)

  Answer : Option (Table ExactSet) → Type 0
  Answer r =
      (m : Table ExactSet) × (r ≡ some m)
      × ((v u : Text) → (member (get exact_set m v) u ≡ true) ↔ Flows nodes edges u v)
      × ((v : Text) → Distinct (get exact_set m v))

  propagate-Answer :
      (rounds : ℕ) (cur : Table ExactSet)
      → Going cur
      → length ns * length ns < total cur ns + rounds
      → Answer (propagate exact_set rounds parts cur)
  unfolding propagate Answer
  propagate-Answer zero cur g l = absurd (omega (arith, bounded cur g))
  propagate-Answer (suc rounds) cur g l =
      let next = round exact_set parts cur in
      elim (Bool-cases (changed exact_set cur next)) [
        | inl more ↦
            rw more (
              propagate-Answer rounds next (round-Going cur g)
                (omega (arith, larger cur g more, l)))
        | inr done ↦ rw done (
          next,
          refl,
          λ v u. ((round-Going cur g).flows v u, λ f. closed cur g done u f),
          (round-Going cur g).plain,
        )
      ]

  seeds-Going : Going (seeds exact_set nodes edges)
  unfolding seeds
  seeds-Going =
      let s = seeds-Start (nodes ++ endpoints edges) [] empty-Start in
      let k = has_key-seeds exact_set nodes edges in
      record {
        keys = k;
        unique = s.unique;
        plain = s.plain;
        flows = λ v u h.
            let e = (text_eq_iff v u).0 (ground (arith, s.cold v u, h)) in
            subst (λ w. Flows nodes edges u w) (sym e)
              (Flows.itself (
                sym (k u)
                ∙ subst (λ w. has_key (seeds exact_set nodes edges) w ≡ true) e
                    (ground (arith, s.cold v u, h))));
        grows = λ v u h. held (seeds exact_set nodes edges) v u ∙ ground (arith, s.cold v u, h);
      }

  seeds-Answer :
      (rounds : ℕ)
      → length (nodes ++ endpoints edges) * length (nodes ++ endpoints edges) < rounds
      → Answer (propagate exact_set rounds parts (seeds exact_set nodes edges))
  seeds-Answer rounds l =
      propagate-Answer rounds (seeds exact_set nodes edges) seeds-Going (omega (arith, l))

-- With exact sets and more rounds than the square of the number of nodes and endpoints the loop
-- ends, for any number of workers. The set of every name then holds exactly the nodes and endpoints
-- that reach it along edges of this epoch, each of them once.
pub run_epoch-Flows :
    (rounds workers : ℕ) (nodes : List Text) (edges : List Edge)
    → length (nodes ++ endpoints edges) * length (nodes ++ endpoints edges) < rounds
    → (m : Table ExactSet) × (run_epoch exact_set rounds workers nodes edges ≡ some m)
      × ((v u : Text) → (member (get exact_set m v) u ≡ true) ↔ Flows nodes edges u v)
      × ((v : Text) → Distinct (get exact_set m v))
unfolding run_epoch Answer
run_epoch-Flows rounds workers nodes edges l =
    seeds-Answer nodes edges (split_edges edges workers) (concat-split_edges edges workers) rounds l
