-- ===== src/Query/Proof/Chains.antt =====
-- The chains of internal/query/proof.go: which paths give one, and when it holds.
use keyholders.Base.{
  ℕ, ◌+◌, ◌≡◌, refl, sym, ap, subst, ◌∙◌, ◌↔◌, ◌⊎◌, inl, inr, Bool-cases, Bool, true, false, ◌&&◌,
  ◌==◌, List, [], ◌∷◌, ◌++◌, none, some, length, ==_iff, arith,
}
use mathlib.Core.List.{append_assoc}
use keyholders.Query.Interval.{Interval, always, empty, intersect, contains}
use keyholders.Query.Interval.Covers.{contains-intersect}
use keyholders.Query.Rows.{Props, interval_of}
use keyholders.Query.Proof.{Hop, Chain, hop_of, chain_from, coexistence_chain}

-- Every edge of the path is valid at the instant.
abbrev pub all_valid : List Props → ℕ → Bool
all_valid [] t = true
all_valid (rel ∷ rels) t = contains (interval_of rel) t && all_valid rels t

-- The hops along the path.
abbrev pub along : List Props → List Props → List Hop
along (from ∷ to ∷ nodes) (rel ∷ rels) = hop_of from to rel ∷ along (to ∷ nodes) rels
along nodes rels = []

-- What a chain claims of a path: it has the path's hops, and holds exactly while every edge is
-- valid.
abbrev pub Proves : List Props → List Props → Chain → Type 0
Proves nodes rels c =
    (c.hops ≡ along nodes rels)
    × (empty c.valid ≡ false)
    × ((t : ℕ) → contains c.valid t ≡ (contains always t && all_valid rels t))

-- One more node than edges, and at least one edge.
abbrev pub is_path : List Props → List Props → Bool
is_path nodes [] = false
is_path nodes (rel ∷ rels) = length nodes == length (rel ∷ rels) + 1

contains-empty : (i : Interval) (t : ℕ) → empty i ≡ true → contains i t ≡ false
contains-empty i t h = ground arith

along-short : (n : Props) (rels : List Props) → along (n ∷ []) rels ≡ []
along-short n [] = refl
along-short n (rel ∷ rels) = refl

-- What the loop makes of the rest of a path.
abbrev Extends : Chain → List Props → List Props → Chain → Type 0
Extends chain nodes rels c =
    (c.hops ≡ chain.hops ++ along nodes rels)
    × (empty c.valid ≡ false)
    × ((t : ℕ) → contains c.valid t ≡ (contains chain.valid t && all_valid rels t))

chain_from-cases :
    (chain : Chain) (nodes rels : List Props)
    → length nodes ≡ length rels + 1
    → empty chain.valid ≡ false
    → ((c : Chain) × (chain_from chain nodes rels ≡ some c) × Extends chain nodes rels c)
      ⊎ ((chain_from chain nodes rels ≡ none)
          × ((t : ℕ) → (contains chain.valid t && all_valid rels t) ≡ false))
unfolding chain_from
chain_from-cases chain [] rels l h = absurd (omega (arith, l))
chain_from-cases chain (n ∷ []) [] l h =
    inl (chain, refl, (sym (append_nil chain.hops), h, λ t. ground arith))
  where
    append_nil : (hops : List Hop) → hops ++ [] ≡ hops
    append_nil [] = refl
    append_nil (x ∷ hops) = ap (λ hs. x ∷ hs) (append_nil hops)
chain_from-cases chain (n ∷ m ∷ nodes) [] l h = absurd (omega (arith, l))
chain_from-cases chain (n ∷ []) (rel ∷ rels) l h = absurd (omega (arith, l))
chain_from-cases chain (from ∷ to ∷ nodes) (rel ∷ rels) l h =
    let hop = hop_of from to rel in
    let valid = intersect chain.valid hop.valid in
    elim (Bool-cases (empty valid)) [
      | inl gone ↦ inr (
        rw gone refl,
        λ t.
            ground (arith, contains-empty valid t gone, contains-intersect chain.valid hop.valid t),
      )
      | inr some_time ↦
          elim (chain_from-cases (record { hops = chain.hops ++ hop ∷ []; valid = valid })
            (to ∷ nodes) rels (omega (arith, l)) some_time) [
              | inl (c, e, (hops, held, when)) ↦ inl (
                c,
                rw some_time e,
                (
                  hops ∙ append_assoc chain.hops (hop ∷ []) (along (to ∷ nodes) rels),
                  held,
                  λ t. ground (arith, when t, contains-intersect chain.valid hop.valid t),
                ),
              )
              | inr (e, never) ↦ inr (
                rw some_time e,
                λ t. ground (arith, never t, contains-intersect chain.valid hop.valid t),
              )
            ]
    ]

-- A path with edges gives a chain exactly when they are all valid at one common instant of the time
-- that the program stores. The chain then has the hops of the path in order, and it holds at exactly
-- the instants at which all edges are valid.
pub coexistence_chain-Proves :
    (nodes rels : List Props)
    → is_path nodes rels ≡ true
    → (((c : Chain) × (coexistence_chain nodes rels ≡ some c))
        ↔ ((t : ℕ) × (contains always t ≡ true) × (all_valid rels t ≡ true)))
      × ((c : Chain) → coexistence_chain nodes rels ≡ some c → Proves nodes rels c)
unfolding coexistence_chain
coexistence_chain-Proves nodes [] h = cc
coexistence_chain-Proves nodes (rel ∷ rels) h =
    elim (chain_from-cases (record { hops = []; valid = always }) nodes (rel ∷ rels) (counted h)
      refl) [
        | inl (c, e, (hops, held, when)) ↦ (
          (
            λ x. (
              c.valid.from,
              ground (arith, when c.valid.from, held),
              ground (arith, when c.valid.from, held),
            ),
            λ x. (c, rw h e),
          ),
          λ d k. subst (Proves nodes (rel ∷ rels)) (ground (arith, k, e, h)) (hops, held, when),
        )
        | inr (e, never) ↦ (
          (λ (c, k). absurd (contradiction c e k), λ (t, a, b). ground (arith, never t, a, b)),
          λ c k. absurd (contradiction c e k),
        )
      ]
  where
    start : Chain
    start = record { hops = []; valid = always }

    counted :
        (length nodes == length (rel ∷ rels) + 1) ≡ true → length nodes ≡ length (rel ∷ rels) + 1
    counted k = (==_iff (length nodes) (length (rel ∷ rels) + 1)).0 k

    contradiction :
        (c : Chain)
        → chain_from start nodes (rel ∷ rels) ≡ none
        → coexistence_chain nodes (rel ∷ rels) ≡ some c
        → ⊥
    contradiction c e k = ground (arith, e, k, h)
