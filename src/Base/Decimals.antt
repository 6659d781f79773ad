-- ===== src/Base/Decimals.antt =====
-- Decimal digits: printing and reading are inverse to each other.
use Prim.Native.Nat.{ℕ, zero, suc, ◌+◌, ◌-◌, ◌*◌, ◌/◌, ◌^◌, ◌≤◌, ◌<◌}
use mathlib.Core.Path.{◌≡◌, refl, sym, ap, ◌∙◌}
use mathlib.Core.Logic.{◌⊎◌, ◌≢◌, inl, inr}
use mathlib.Core.Bool.{Bool, true, false, ◌&&◌}
use mathlib.Core.List.{[], ◌∷◌, ◌++◌, reverse, reverse-append, reverse-reverse}
use native.Mathlib.Omega.{arith}
use native.Mathlib.Nat.{pow-suc}
use keyholders.Base.Tests.{◌==◌, Bool-cases}
use keyholders.Base.Texts.{Text}
use keyholders.Base.Strings.{all_digits, decimal, low_digits, format_uint}

-- The number that digits spell with the lowest first.
pub low_value : Text → ℕ
low_value [] = 0
low_value (d ∷ r) = low_value r * 10 + (d - b'0')

decimal-append : (acc : ℕ) (s u : Text) → decimal acc (s ++ u) ≡ decimal (decimal acc s) u
unfolding decimal
decimal-append acc [] u = refl
decimal-append acc (c ∷ s) u = decimal-append (acc * 10 + (c - b'0')) s u

reverse-cons : (d : ℕ) (r : Text) → reverse (d ∷ r) ≡ reverse r ++ d ∷ []
reverse-cons d r = reverse-append (d ∷ []) r

decimal-reverse : (r : Text) → decimal 0 (reverse r) ≡ low_value r
unfolding decimal low_value
decimal-reverse [] = refl
decimal-reverse (d ∷ r) =
    rw (reverse-cons d r, decimal-append 0 (reverse r) (d ∷ []), decimal-reverse r) refl

all_digits-append : (s u : Text) → all_digits (s ++ u) ≡ (all_digits s && all_digits u)
unfolding all_digits
all_digits-append [] u = refl
all_digits-append (c ∷ s) u = ground (arith, all_digits-append s u)

all_digits-reverse : (r : Text) → all_digits (reverse r) ≡ all_digits r
unfolding all_digits
all_digits-reverse [] = refl
all_digits-reverse (d ∷ r) =
    rw (reverse-cons d r, all_digits-append (reverse r) (d ∷ []), all_digits-reverse r)
      (ground arith)

-- The last, which is the highest, digit is a zero.
pub last_zero : Text → Bool
last_zero [] = false
last_zero (c ∷ []) = c == b'0'
last_zero (c ∷ d ∷ r) = last_zero (d ∷ r)

last_zero-concat : (r : Text) (c : ℕ) → last_zero (r ++ c ∷ []) ≡ (c == b'0')
unfolding last_zero
last_zero-concat [] c = refl
last_zero-concat (d ∷ []) c = refl
last_zero-concat (d ∷ e ∷ r) c = last_zero-concat (e ∷ r) c

low_value_pos :
    (d : ℕ) (r : Text)
    → all_digits (d ∷ r) ≡ true
    → last_zero (d ∷ r) ≡ false
    → 0 < low_value (d ∷ r)
unfolding all_digits last_zero low_value
low_value_pos d [] h z = ground arith
low_value_pos d (e ∷ r) h z = ground (arith, low_value_pos e r)

low_value_pos_of_ne :
    (r : Text) → r ≢ [] → all_digits r ≡ true → last_zero r ≡ false → 0 < low_value r
low_value_pos_of_ne [] n h z = absurd (n refl)
low_value_pos_of_ne (d ∷ r) n h z = low_value_pos d r h z

last_zero-tail : (d : ℕ) (r : Text) → last_zero (d ∷ r) ≡ false → last_zero r ≡ false
unfolding last_zero
last_zero-tail d [] z = refl
last_zero-tail d (e ∷ r) z = z

digit_bounds :
    (d : ℕ) (r : Text) → all_digits (d ∷ r) ≡ true → (48 ≤ d) × (d ≤ 57) × (all_digits r ≡ true)
unfolding all_digits
digit_bounds d r h = ground arith

low_value-cons : (d : ℕ) (r : Text) → low_value (d ∷ r) ≡ low_value r * 10 + (d - 48)
unfolding low_value
low_value-cons d r = refl

low_value-injective :
    (r q : Text)
    → all_digits r ≡ true
    → all_digits q ≡ true
    → last_zero r ≡ false
    → last_zero q ≡ false
    → low_value r ≡ low_value q
    → r ≡ q
low_value-injective [] [] h k z w e = refl
low_value-injective [] (d ∷ q) h k z w e =
    absurd (unfold low_value in omega (arith, low_value_pos d q k w))
low_value-injective (d ∷ r) [] h k z w e =
    absurd (unfold low_value in omega (arith, low_value_pos d r h z))
low_value-injective (d ∷ r) (c ∷ q) h k z w e =
    let (d_lo, d_hi, hr) = digit_bounds d r h in
    let (c_lo, c_hi, hq) = digit_bounds c q k in
    let same : d ≡ c = omega (arith, low_value-cons d r, low_value-cons c q) in
    let rest : low_value r ≡ low_value q = omega (arith, low_value-cons d r, low_value-cons c q) in
    cc (same, low_value-injective r q hr hq (last_zero-tail d r z) (last_zero-tail c q w) rest)

-- Two decimal texts without a leading zero that spell the same number are equal.
pub decimal-injective :
    (a b : ℕ) (s u : Text)
    → all_digits (a ∷ s) ≡ true
    → all_digits (b ∷ u) ≡ true
    → (a == b'0') ≡ false
    → (b == b'0') ≡ false
    → decimal 0 (a ∷ s) ≡ decimal 0 (b ∷ u)
    → a ∷ s ≡ b ∷ u
decimal-injective a b s u h k z w e =
    let back = λ (t : Text). sym (reverse-reverse t) in
    let value = λ (t : Text). ap (decimal 0) (back t) ∙ decimal-reverse (reverse t) in
    let same =
      low_value-injective (reverse (a ∷ s)) (reverse (b ∷ u)) (all_digits-reverse (a ∷ s) ∙ h)
        (all_digits-reverse (b ∷ u) ∙ k)
        (ap last_zero (reverse-cons a s) ∙ last_zero-concat (reverse s) a ∙ z)
        (ap last_zero (reverse-cons b u) ∙ last_zero-concat (reverse u) b ∙ w)
        (sym (value (a ∷ s)) ∙ e ∙ value (b ∷ u)) in
    back (a ∷ s) ∙ ap reverse same ∙ sym (back (b ∷ u))

-- A text of digits that starts with another digit than zero is not zero.
pub decimal_pos :
    (a : ℕ) (s : Text) → all_digits (a ∷ s) ≡ true → (a == b'0') ≡ false → 0 < decimal 0 (a ∷ s)
decimal_pos a s h z =
    let r = reverse (a ∷ s) in
    let value = ap (decimal 0) (sym (reverse-reverse (a ∷ s))) ∙ decimal-reverse r in
    let pos =
      low_value_pos_of_ne r (λ e. nonempty (sym (reverse-reverse (a ∷ s)) ∙ ap reverse e))
        (all_digits-reverse (a ∷ s) ∙ h)
        (ap last_zero (reverse-cons a s) ∙ last_zero-concat (reverse s) a ∙ z) in
    rw value pos
  where
    nonempty : a ∷ s ≡ [] → ⊥
    nonempty e = cc

low_digits-value : (fuel n : ℕ) → n < 10 ^ fuel → low_value (low_digits fuel n) ≡ n
unfolding low_digits
low_digits-value zero n h = unfold low_value in omega arith
low_digits-value (suc fuel) n h =
    let bound : n / 10 < 10 ^ fuel = omega (arith, pow-suc 10 fuel) in
    let rest = low_digits-value fuel (n / 10) bound in
    elim (Bool-cases (n / 10 == 0)) [
      | inl small ↦ rw (small, low_value-cons) (unfold low_value in ground arith)
      | inr big ↦ rw (big, low_value-cons, rest) (omega arith)
    ]

all_digits-low_digits : (fuel n : ℕ) → all_digits (low_digits fuel n) ≡ true
unfolding low_digits all_digits
all_digits-low_digits zero n = refl
all_digits-low_digits (suc fuel) n = ground (arith, all_digits-low_digits fuel (n / 10))

last_zero-cons : (d : ℕ) (r : Text) → r ≢ [] → last_zero (d ∷ r) ≡ last_zero r
unfolding last_zero
last_zero-cons d [] n = absurd (n refl)
last_zero-cons d (e ∷ r) n = refl

low_digits-ne-nil : (fuel n : ℕ) → n < 10 ^ fuel → 0 < n → low_digits fuel n ≢ []
unfolding low_digits
low_digits-ne-nil zero n h p = absurd (omega arith)
low_digits-ne-nil (suc fuel) n h p = λ e. cc

low_digits-last : (fuel n : ℕ) → n < 10 ^ fuel → 0 < n → last_zero (low_digits fuel n) ≡ false
unfolding low_digits
low_digits-last zero n h p = absurd (omega arith)
low_digits-last (suc fuel) n h p =
    let bound : n / 10 < 10 ^ fuel = omega (arith, pow-suc 10 fuel) in
    elim (Bool-cases (n / 10 == 0)) [
      | inl small ↦ rw (low_digits, small) (unfold last_zero in ground arith)
      | inr big ↦
          rw
            (
              low_digits,
              big,
              last_zero-cons _ _ (low_digits-ne-nil fuel (n / 10) bound (ground arith)),
            )
            (low_digits-last fuel (n / 10) bound (ground arith))
    ]

reverse-ne-nil : (r : Text) → r ≢ [] → reverse r ≢ []
reverse-ne-nil r n e = n (sym (reverse-reverse r) ∙ ap reverse e)

List-shape : (s : Text) → s ≢ [] → (c : ℕ) × (r : Text) × (s ≡ c ∷ r)
List-shape [] n = absurd (n refl)
List-shape (c ∷ r) n = (c, r, refl)

-- What is printed for a 64-bit number: digits that spell it, with a leading zero for zero alone.
pub format_uint-digits :
    (n : ℕ)
    → n < 2 ^ 64
    → (c : ℕ) × (s : Text) × (format_uint n ≡ c ∷ s)
      × (all_digits (c ∷ s) ≡ true)
      × (decimal 0 (c ∷ s) ≡ n)
      × ((s ≡ []) ⊎ ((c == b'0') ≡ false))
unfolding format_uint
format_uint-digits n h = elim (Bool-cases (n == 0)) [
  | inl nil ↦
      let zero_n : n ≡ 0 = ground arith in
      rw zero_n (b'0', [], refl, unfold all_digits in refl, unfold decimal in refl, inl refl)
  | inr pos ↦
      let wide : n < 10 ^ 20 = omega arith in
      let positive : 0 < n = ground arith in
      let r = low_digits 20 n in
      let (c, s, e) =
        List-shape (reverse r) (reverse-ne-nil r (low_digits-ne-nil 20 n wide positive)) in
      let digits = ap all_digits (sym e) ∙ all_digits-reverse r ∙ all_digits-low_digits 20 n in
      let value = ap (decimal 0) (sym e) ∙ decimal-reverse r ∙ low_digits-value 20 n wide in
      let leading =
        sym (last_zero-concat (reverse s) c)
        ∙ ap last_zero (sym (reverse-cons c s))
        ∙ ap last_zero (ap reverse (sym e) ∙ reverse-reverse r)
        ∙ low_digits-last 20 n wide positive in
      (c, s, e, digits, value, inr leading)
]
