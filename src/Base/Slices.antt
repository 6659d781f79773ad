-- ===== src/Base/Slices.antt =====
-- Parts of lists by native numbers, and tests over all members.
use Prim.Native.Nat.{ℕ, zero, suc, ◌-◌, ◌≤◌}
use mathlib.Core.Path.{◌≡◌, refl, ap, ◌∙◌, subst}
use mathlib.Core.Logic.{inl, inr}
use mathlib.Core.Bool.{Bool, true, false, ◌||◌}
use mathlib.Core.List.{List, [], ◌∷◌, ◌++◌}
use native.Mathlib.Omega.{arith}
use keyholders.Base.Tests.{Bool-cases, if◌then◌else◌}
use keyholders.Base.Lists.{length, In, In-cons, In-cons_of}

module _ {ℓ} {A : Type ℓ} where
  abbrev pub take : ℕ → List A → List A
  take zero xs = []
  take (suc n) [] = []
  take (suc n) (x ∷ xs) = x ∷ take n xs

  abbrev pub drop : ℕ → List A → List A
  drop zero xs = xs
  drop (suc n) [] = []
  drop (suc n) (x ∷ xs) = drop n xs

  abbrev pub concat : List (List A) → List A
  concat [] = []
  concat (xs ∷ xss) = xs ++ concat xss

  abbrev pub any : (A → Bool) → List A → Bool
  any p [] = false
  any p (x ∷ xs) = p x || any p xs

  -- The loop that appends what passes a test.
  abbrev pub filter : (A → Bool) → List A → List A
  filter p [] = []
  filter p (x ∷ xs) = let rest = filter p xs in if p x then x ∷ rest else rest

  pub In-filter : (p : A → Bool) (a : A) (xs : List A) → In a (filter p xs) → In a xs × (p a ≡ true)
  In-filter p a [] m = elim m [ ]
  In-filter p a (x ∷ xs) m = elim (Bool-cases (p x)) [
    | inl here ↦ elim (In-cons (subst (λ l. In a l) (kept here) m)) [
      | inl e ↦ (In-cons_of xs (inl e), ap p e ∙ here)
      | inr n ↦ let (k, h) = In-filter p a xs n in (In.tail k, h)
    ]
    | inr out ↦
        let (k, h) = In-filter p a xs (subst (λ l. In a l) (dropped out) m) in (In.tail k, h)
  ]
    where
      kept : p x ≡ true → filter p (x ∷ xs) ≡ x ∷ filter p xs
      kept h = rw h refl

      dropped : p x ≡ false → filter p (x ∷ xs) ≡ filter p xs
      dropped h = rw h refl

  pub filter-In : (p : A → Bool) (a : A) (xs : List A) → In a xs → p a ≡ true → In a (filter p xs)
  filter-In p a [] m h = elim m [ ]
  filter-In p a (x ∷ xs) In.head h = rw h In.head
  filter-In p a (x ∷ xs) (In.tail m) h = elim (Bool-cases (p x)) [
    | inl here ↦ rw here (In.tail (filter-In p a xs m h))
    | inr out ↦ rw out (filter-In p a xs m h)
  ]

  pub length-filter : (p : A → Bool) (xs : List A) → length (filter p xs) ≤ length xs
  length-filter p [] = omega arith
  length-filter p (x ∷ xs) = elim (Bool-cases (p x)) [
    | inl here ↦ rw here (omega (arith, length-filter p xs))
    | inr out ↦ rw out (omega (arith, length-filter p xs))
  ]

  pub In-take : (n : ℕ) (xs : List A) (a : A) → In a (take n xs) → In a xs
  In-take zero xs a m = elim m [ ]
  In-take (suc n) [] a m = elim m [ ]
  In-take (suc n) (x ∷ xs) a In.head = In.head
  In-take (suc n) (x ∷ xs) a (In.tail m) = In.tail (In-take n xs a m)

  pub take-append-drop : (n : ℕ) (xs : List A) → take n xs ++ drop n xs ≡ xs
  take-append-drop zero xs = refl
  take-append-drop (suc n) [] = refl
  take-append-drop (suc n) (x ∷ xs) = ap (λ ys. x ∷ ys) (take-append-drop n xs)

  pub length-drop : (n : ℕ) (xs : List A) → length (drop n xs) ≡ length xs - n
  length-drop zero xs = omega arith
  length-drop (suc n) [] = omega arith
  length-drop (suc n) (x ∷ xs) = omega (arith, length-drop n xs)

  pub any-append : (p : A → Bool) (xs ys : List A) → any p (xs ++ ys) ≡ (any p xs || any p ys)
  any-append p [] ys = refl
  any-append p (x ∷ xs) ys = ground (arith, any-append p xs ys)

  pub any-In : (p : A → Bool) (xs : List A) → any p xs ≡ true → (a : A) × In a xs × (p a ≡ true)
  any-In p [] h = cc
  any-In p (x ∷ xs) h = elim (Bool-cases (p x)) [
    | inl here ↦ (x, In.head, here)
    | inr other ↦ let (a, m, k) = any-In p xs (ground arith) in (a, In.tail m, k)
  ]

  pub In-any : (p : A → Bool) (a : A) {xs : List A} → In a xs → p a ≡ true → any p xs ≡ true
  In-any p a In.head k = ground arith
  In-any p a (In.tail m) k = ground (arith, In-any p a m k)

  pub length-take-le : (n : ℕ) (xs : List A) → length (take n xs) ≤ n
  length-take-le zero xs = omega arith
  length-take-le (suc n) [] = omega arith
  length-take-le (suc n) (x ∷ xs) = omega (arith, length-take-le n xs)
