-- ===== src/Observatory/Snapshots/Loops.antt =====
-- Loops whose bodies add to a result: what a member of the result goes back to.
use mathlib.Core.List.{foldl}
use keyholders.Base.{◌≡◌, ◌↔◌, ◌⊎◌, refl, inl, inr, List, [], ◌∷◌, In, In-cons, subst, sym, arith}
use keyholders.Observatory.Snapshots.{Error, Outcome, each}

Outcome-cases :
    {A : Type 0} (r : Outcome A)
    → ((e : Error) × (r ≡ Outcome.err e)) ⊎ ((a : A) × (r ≡ Outcome.ok a))
Outcome-cases (Outcome.err e) = inl (e, refl)
Outcome-cases (Outcome.ok a) = inr (a, refl)

module _ {A S : Type 0} (holds : S → Type 0) (adds : A → Type 0) where
  -- From one item more to all items.
  joined :
      (a : A) (items : List A) (s next last : S)
      → (holds next ↔ (holds s ⊎ adds a))
      → (holds last ↔ (holds next ⊎ ((b : A) × In b items × adds b)))
      → holds last ↔ (holds s ⊎ ((b : A) × In b (a ∷ items) × adds b))
  joined a items s next last one rest = (
    λ h. elim (rest.0 h) [
      | inl n ↦ elim (one.0 n) [ inl o ↦ inl o | inr p ↦ inr (a, In.head, p) ]
      | inr (b, m, p) ↦ inr (b, In.tail m, p)
    ],
    λ h. elim h [
      | inl o ↦ rest.1 (inl (one.1 (inl o)))
      | inr (b, m, p) ↦ elim (In-cons m) [
        | inl e ↦ rest.1 (inl (one.1 (inr (subst (λ c. adds c) e p))))
        | inr k ↦ rest.1 (inr (b, k, p))
      ]
    ],
  )

  pub foldl_iff :
      (step : S → A → S)
      → ((s : S) (a : A) → holds (step s a) ↔ (holds s ⊎ adds a))
      → (s : S) (items : List A)
      → holds (foldl step s items) ↔ (holds s ⊎ ((a : A) × In a items × adds a))
  foldl_iff step one s [] = (λ h. inl h, λ h. elim h [ inl o ↦ o | inr (b, m, p) ↦ elim m [ ] ])
  foldl_iff step one s (a ∷ items) =
      joined a items s (step s a) (foldl step (step s a) items) (one s a)
        (foldl_iff step one (step s a) items)

  pub each_iff :
      (body : S → A → Outcome S)
      → ((s : S) (a : A) (next : S) → body s a ≡ Outcome.ok next → holds next ↔ (holds s ⊎ adds a))
      → (s : S) (items : List A) (last : S) → each body s items ≡ Outcome.ok last
      → holds last ↔ (holds s ⊎ ((a : A) × In a items × adds a))
  unfolding each
  each_iff body one s [] last h =
      let e : s ≡ last = ground (arith, h) in
      (
        λ k. inl (subst holds (sym e) k),
        λ k. elim k [ inl o ↦ subst holds e o | inr (b, m, p) ↦ elim m [ ] ],
      )
  each_iff body one s (a ∷ items) last h = elim (Outcome-cases (body s a)) [
    | inl (e, q) ↦ absurd (stopped e q)
    | inr (next, q) ↦
        joined a items s next last (one s a next q)
          (each_iff body one next items last (ground (arith, h, q)))
  ]
    where
      stopped : (e : Error) → body s a ≡ Outcome.err e → ⊥
      stopped e q = ground (arith, h, q)
