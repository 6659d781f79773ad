-- ===== src/Base/Cutting.antt =====
-- Laws of cutting, splitting, joining and trimming.
use Prim.Native.Nat.{ℕ}
use mathlib.Core.Path.{◌≡◌, refl, ap, ◌∙◌}
use mathlib.Core.Bool.{true, false}
use mathlib.Core.Option.{none, some}
use mathlib.Core.List.{List, [], ◌∷◌, ◌++◌}
use native.Mathlib.Omega.{arith}
use keyholders.Base.Tests.{◌==◌, if◌then◌else◌}
use keyholders.Base.Lists.{All}
use keyholders.Base.Texts.{Text}
use keyholders.Base.Strings.{
  is_space, trim_left, trim_right, trim_space, cut, cut_last, split, join, is_digit, all_digits,
}

-- No byte of the text is `c`.
abbrev pub Lacks : ℕ → Text → Type 0
Lacks c s = All (λ d. (d == c) ≡ false) s

abbrev pub Spaceless : Text → Type 0
Spaceless s = All (λ d. is_space d ≡ false) s

pub All-append {ℓ κ} :
    {A : Type ℓ} (P : A → Type κ) (xs ys : List A) → All P xs → All P ys → All P (xs ++ ys)
All-append P [] ys p q = q
All-append P (x ∷ xs) ys p q = (p.0, All-append P xs ys p.1 q)

pub cut-append : (c : ℕ) (s u : Text) → Lacks c s → cut c (s ++ c ∷ u) ≡ (s, some u)
unfolding cut
cut-append c [] u p = ground arith
cut-append c (d ∷ s) u p = ground (arith, cut-append c s u p.1)

pub cut-none : (c : ℕ) (s : Text) → Lacks c s → cut c s ≡ (s, none)
unfolding cut
cut-none c [] p = refl
cut-none c (d ∷ s) p = ground (arith, cut-none c s p.1)

pub split-none : (c : ℕ) (s : Text) → Lacks c s → split c s ≡ s ∷ []
unfolding split
split-none c [] p = refl
split-none c (d ∷ s) p = rw (split-none c s p.1, p.0, split) refl

split-shape : (c : ℕ) (u : Text) → (first : Text) × (rest : List Text) × (split c u ≡ first ∷ rest)
unfolding split
split-shape c [] = ([], [], refl)
split-shape c (d ∷ u) =
    let (first, rest, e) = split-shape c u in
    (
      (if d == c then [] else d ∷ first),
      (if d == c then first ∷ rest else rest),
      rw (split, e) (ground arith),
    )

self_eq : (c : ℕ) → (c == c) ≡ true
self_eq c = ground arith

pub split-append : (c : ℕ) (s u : Text) → Lacks c s → split c (s ++ c ∷ u) ≡ s ∷ split c u
unfolding split
split-append c [] u p = let (first, rest, e) = split-shape c u in rw (split, e, self_eq c) refl
split-append c (d ∷ s) u p = rw (split-append c s u p.1, p.0, split) refl

pub split-join :
    (c : ℕ) (s : Text) (rest : List Text)
    → Lacks c s
    → All (Lacks c) rest
    → split c (join c (s ∷ rest)) ≡ s ∷ rest
unfolding join
split-join c s [] p q = split-none c s p
split-join c s (u ∷ rest) p q =
    split-append c s (join c (u ∷ rest)) p ∙ ap (◌∷◌ s) (split-join c u rest q.0 q.1)

pub trim_left-Spaceless : (s : Text) → Spaceless s → trim_left s ≡ s
unfolding trim_left
trim_left-Spaceless [] p = refl
trim_left-Spaceless (c ∷ s) p = rw p.0

pub trim_right-Spaceless : (s : Text) → Spaceless s → trim_right s ≡ s
unfolding trim_right
trim_right-Spaceless [] p = refl
trim_right-Spaceless (c ∷ []) p = rw p.0
trim_right-Spaceless (c ∷ d ∷ s) p = rw (trim_right-Spaceless (d ∷ s) p.1, trim_right) refl

pub trim_space-Spaceless : (s : Text) → Spaceless s → trim_space s ≡ s
unfolding trim_space
trim_space-Spaceless s p = rw (trim_left-Spaceless s p) (trim_right-Spaceless s p)

-- Digits are no separators and no spaces.
pub digits-Lacks : (c : ℕ) (s : Text) → all_digits s ≡ true → is_digit c ≡ false → Lacks c s
unfolding all_digits
digits-Lacks c [] h n = tt
digits-Lacks c (d ∷ s) h n = (ground arith, digits-Lacks c s (ground arith) n)

pub digits-Spaceless : (s : Text) → all_digits s ≡ true → Spaceless s
unfolding all_digits is_space
digits-Spaceless [] h = tt
digits-Spaceless (d ∷ s) h = (ground arith, digits-Spaceless s (ground arith))

pub All-join :
    (P : ℕ → Type 0) (c : ℕ) (ids : List Text) → P c → All (All P) ids → All P (join c ids)
unfolding join
All-join P c [] p q = tt
All-join P c (s ∷ []) p q = q.0
All-join P c (s ∷ u ∷ rest) p q =
    All-append P s (c ∷ join c (u ∷ rest)) q.0 (p, All-join P c (u ∷ rest) p q.1)

pub cut_last-none : (c : ℕ) (s : Text) → Lacks c s → cut_last c s ≡ none
unfolding cut_last
cut_last-none c [] p = refl
cut_last-none c (d ∷ s) p = ground (arith, cut_last-none c s p.1)

pub cut_last-append : (c : ℕ) (s u : Text) → Lacks c u → cut_last c (s ++ c ∷ u) ≡ some (s, u)
unfolding cut_last
cut_last-append c [] u p = ground (arith, cut_last-none c u p)
cut_last-append c (d ∷ s) u p = ground (arith, cut_last-append c s u p)

-- A cut text is its two parts with the byte between them.
pub cut-eq : (c : ℕ) (s behind : Text) → (cut c s).1 ≡ some behind → s ≡ (cut c s).0 ++ c ∷ behind
unfolding cut
cut-eq c [] behind h = cc
cut-eq c (d ∷ s) behind h = ground (arith, cut-eq c s behind, h)
