-- ===== src/Base/Tables.antt =====
-- Tables in which no key stands twice.
use mathlib.Core.Path.{◌≡◌, refl, sym, subst}
use mathlib.Core.Logic.{inl, inr}
use mathlib.Core.Bool.{true, false, ◌||◌}
use mathlib.Core.Option.{some}
use mathlib.Core.List.{[], ◌∷◌}
use native.Mathlib.Omega.{arith}
use keyholders.Base.Tests.{Bool-cases}
use keyholders.Base.Lists.{In}
use keyholders.Base.Texts.{
  Text, Table, text_eq, text_eq_iff, text_eq_refl, lookup, put, has_key, lookup-put,
}

module _ {ℓ} {V : Type ℓ} where
  pub has_key-put :
      (k : Text) (s : V) (m : Table V) (v : Text)
      → has_key (put k s m) v ≡ (text_eq k v || has_key m v)
  has_key-put k s m v = ground (arith, lookup-put k v s m)

  -- No key stands twice.
  abbrev pub Unique : Table V → Type 0
  Unique [] = Unit
  Unique ((k, v) ∷ m) = (has_key m k ≡ false) × Unique m

module _ {ℓ} {V : Type ℓ} where
  pub put-Unique : (k : Text) (s : V) (m : Table V) → Unique m → Unique (put k s m)
  unfolding put lookup
  put-Unique k s [] u = (refl, tt)
  put-Unique k s ((j, w) ∷ m) u = elim (Bool-cases (text_eq j k)) [
    | inl here ↦ rw here (ground (arith, text_eq_iff j k), u.1)
    | inr other ↦ rw other (
      ground (arith, has_key-put k s m j, text_eq_iff j k, text_eq_iff k j),
      put-Unique k s m u.1,
    )
  ]

module _ {ℓ} {V : Type ℓ} where
  pub lookup-In : (k : Text) {v : V} (m : Table V) → lookup k m ≡ some v → In (k, v) m
  unfolding lookup
  lookup-In k [] h = cc
  lookup-In k {v} ((j, w) ∷ m) h = elim (Bool-cases (text_eq j k)) [
    | inl here ↦
        let same : (k, v) ≡ (j, w) = ground (arith, text_eq_iff j k, here, h) in
        subst (λ x. In x ((j, w) ∷ m)) (sym same) In.head
    | inr other ↦ In.tail (lookup-In k m (ground (arith, h, other)))
  ]

  In-has_key : (k : Text) {v : V} (m : Table V) → In (k, v) m → has_key m k ≡ true
  unfolding lookup
  In-has_key k m In.head = ground (arith, text_eq_refl k)
  In-has_key k ((j, w) ∷ m) (In.tail n) = ground (arith, In-has_key k m n)

  -- Where no key stands twice, an entry is what its key finds.
  pub In-lookup : (k : Text) {v : V} (m : Table V) → Unique m → In (k, v) m → lookup k m ≡ some v
  unfolding lookup
  In-lookup k m u In.head = ground (arith, text_eq_refl k)
  In-lookup k ((j, w) ∷ m) u (In.tail n) =
      ground (arith, text_eq_iff j k, In-has_key k m n, In-lookup k m u.1 n, u.0)
