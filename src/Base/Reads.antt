-- ===== src/Base/Reads.antt =====
-- What a source outside the program answers to a read: an error, or a value.
use mathlib.Core.Path.{◌≡◌, refl}
use mathlib.Core.Logic.{◌⊎◌, inl, inr}
use keyholders.Base.Texts.{Text}

pub data Read {ℓ} (A : Type ℓ) : Type ℓ where
  failed : Text → Read A
  got : A → Read A

pub Read-cases {ℓ} :
    {A : Type ℓ} (r : Read A) → ((e : Text) × (r ≡ failed e)) ⊎ ((a : A) × (r ≡ got a))
Read-cases (failed e) = inl (e, refl)
Read-cases (got a) = inr (a, refl)
