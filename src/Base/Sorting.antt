-- ===== src/Base/Sorting.antt =====
-- A sort by a number puts the members in ascending order.
use Prim.Native.Nat.{ℕ, ◌≤◌}
use mathlib.Core.Logic.{inl, inr}
use mathlib.Core.Bool.{Bool}
use mathlib.Core.List.{List, [], ◌∷◌}
use native.Mathlib.Omega.{arith}
use keyholders.Base.Tests.{ltb, Bool-cases}
use keyholders.Base.Lists.{All, All-insert_by, All-weaken, insert_by, sort_by}

module _ {ℓ} {A : Type ℓ} (key : A → ℕ) where
  abbrev pub below : A → A → Bool
  below a b = ltb (key a) (key b)

  abbrev pub Ascending : List A → Type 0
  Ascending [] = Unit
  Ascending (x ∷ xs) = All (λ y. key x ≤ key y) xs × Ascending xs

module _ {ℓ} {A : Type ℓ} (key : A → ℕ) where
  insert_by-Ascending :
      (x : A) (xs : List A) → Ascending key xs → Ascending key (insert_by (below key) x xs)
  insert_by-Ascending x [] h = (tt, tt)
  insert_by-Ascending x (y ∷ xs) h = elim (Bool-cases (below key y x)) [
    | inl later ↦ rw later (
      All-insert_by (λ (z : A). key y ≤ key z) (below key) x xs (ground arith) h.0,
      insert_by-Ascending x xs h.1,
    )
    | inr here ↦
        let le : key x ≤ key y = ground arith in
        rw here (
          (
            le,
            All-weaken (λ (z : A). key y ≤ key z) (λ (z : A). key x ≤ key z) xs (λ z l. omega arith)
                h.0,
          ),
          h,
        )
  ]

  pub sort_by-Ascending : (xs : List A) → Ascending key (sort_by (below key) xs)
  sort_by-Ascending [] = tt
  sort_by-Ascending (x ∷ xs) = insert_by-Ascending x (sort_by (below key) xs) (sort_by-Ascending xs)
