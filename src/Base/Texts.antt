-- ===== src/Base/Texts.antt =====
-- Go strings as lists of bytes: equality, order, and maps keyed by them.
use Prim.Native.Nat.{ℕ}
use Prim.Native.Char.{code}
use Prim.Native.String.{String}
use mathlib.Core.Path.{◌≡◌, refl}
use mathlib.Core.Logic.{◌↔◌}
use mathlib.Core.Bool.{Bool, true, false, ◌&&◌}
use mathlib.Core.Option.{Option, none, some}
use mathlib.Core.List.{List, [], ◌∷◌}
use native.Mathlib.Omega.{arith}
use keyholders.Base.Tests.{◌==◌, ltb, if◌then◌else◌}

abbrev pub Text : Type 0
Text = List ℕ

-- The bytes of an ASCII literal.
abbrev pub bytes : String → Text
bytes String.[] = []
bytes (String.◌∷◌ c s) = code c ∷ bytes s

unfoldable pub text_eq : Text → Text → Bool
text_eq [] [] = true
text_eq [] (b ∷ u) = false
text_eq (a ∷ s) [] = false
text_eq (a ∷ s) (b ∷ u) = a == b && text_eq s u

pub text_eq→eq : (s u : Text) → text_eq s u ≡ true → s ≡ u
unfolding text_eq
text_eq→eq [] [] h = refl
text_eq→eq [] (b ∷ u) h = cc
text_eq→eq (a ∷ s) [] h = cc
text_eq→eq (a ∷ s) (b ∷ u) h = ground (arith, text_eq→eq s u)

pub text_eq_refl : (s : Text) → text_eq s s ≡ true
unfolding text_eq
text_eq_refl [] = refl
text_eq_refl (a ∷ s) = ground (arith, text_eq_refl s)

pub text_eq_iff : (s u : Text) → (text_eq s u ≡ true) ↔ (s ≡ u)
text_eq_iff s u = (text_eq→eq s u, λ e. rw e (text_eq_refl u))

-- The order of `<` on strings.
unfoldable pub text_lt : Text → Text → Bool
text_lt s [] = false
text_lt [] (b ∷ u) = true
text_lt (a ∷ s) (b ∷ u) = if a == b then text_lt s u else ltb a b

pub text_lt_irrefl : (s : Text) → text_lt s s ≡ false
unfolding text_lt
text_lt_irrefl [] = refl
text_lt_irrefl (a ∷ s) = ground (arith, text_lt_irrefl s)

pub text_lt_trans : (s u w : Text) → text_lt s u ≡ true → text_lt u w ≡ true → text_lt s w ≡ true
unfolding text_lt
text_lt_trans s u [] h k = cc
text_lt_trans s [] (c ∷ w) h k = cc
text_lt_trans [] (b ∷ u) (c ∷ w) h k = refl
text_lt_trans (a ∷ s) (b ∷ u) (c ∷ w) h k = ground (arith, text_lt_trans s u w)

-- Two different texts are ordered one way and not the other.
pub text_lt_flip :
    (s u : Text) → text_eq s u ≡ false → text_lt u s ≡ (if text_lt s u then false else true)
unfolding text_lt text_eq
text_lt_flip [] [] h = cc
text_lt_flip [] (b ∷ u) h = refl
text_lt_flip (a ∷ s) [] h = refl
text_lt_flip (a ∷ s) (b ∷ u) h = ground (arith, text_lt_flip s u)

-- A Go map keyed by strings, as an association list.
abbrev pub Table {ℓ} : Type ℓ → Type ℓ
Table V = List (Text × V)

module _ {ℓ} {V : Type ℓ} where
  unfoldable pub lookup : Text → Table V → Option V
  lookup k [] = none
  lookup k ((j, v) ∷ m) = if text_eq j k then some v else lookup k m

  unfoldable pub put : Text → V → Table V → Table V
  put k v [] = (k, v) ∷ []
  put k v ((j, w) ∷ m) = if text_eq j k then (k, v) ∷ m else (j, w) ∷ put k v m

  -- `_, ok := m[k]`
  abbrev pub has_key : Table V → Text → Bool
  has_key m k = elim (lookup k m) [ none ↦ false | some v ↦ true ]

  pub lookup-put :
      (k j : Text) (v : V) (m : Table V)
      → lookup j (put k v m) ≡ (if text_eq k j then some v else lookup j m)
  unfolding lookup put
  lookup-put k j v [] = refl
  lookup-put k j v ((i, w) ∷ m) =
      ground (arith, text_eq_iff i k, text_eq_iff i j, text_eq_iff k j, lookup-put k j v m)
