-- ===== src/Sketch/Hll/Hash.antt =====
-- The hash of internal/sketch/hll.go picks an existing register and a rank that fits a byte.
use Prim.Native.Nat.{digits, differ, bit_xor, bit_xor-bitwise}
use keyholders.Base.{
  ℕ, zero, suc, ◌+◌, ◌-◌, ◌*◌, ◌/◌, ◌%◌, ◌^◌, ◌≤◌, ◌<◌, ◌≡◌, ap, ◌∙◌, subst, arith, Text, u64_mod,
}
use native.Mathlib.Nat.{pow-suc}
use keyholders.Sketch.Hll.{hash64, fold_high, leading_zeros, index_of, rank_of, shift_one}

-- `bit_xor` digit by digit.
abbrev xor_digits : ℕ → ℕ → ℕ → ℕ
xor_digits n a b = digits (λ b. b) differ n a b

differ-bit : (a b : ℕ) → a < 2 → b < 2 → differ a b < 2
differ-bit zero b p q = q
differ-bit (suc a) zero p q = p
differ-bit (suc zero) (suc zero) p q = omega arith
differ-bit (suc zero) (suc (suc b)) p q = absurd (omega arith)
differ-bit (suc (suc a)) (suc b) p q = absurd (omega arith)

xor_digits-lt : (w n a b : ℕ) → a < 2 ^ w → b < 2 ^ w → xor_digits n a b < 2 ^ w
xor_digits-lt w zero a b p q = q
xor_digits-lt w (suc n) zero b p q = q
xor_digits-lt zero (suc n) (suc a) b p q = absurd (omega arith)
xor_digits-lt (suc w) (suc n) (suc a) b p q = omega (
  arith,
  xor_digits-lt w n (suc a / 2) (b / 2) (omega arith) (omega arith),
  differ-bit (suc a % 2) (b % 2) (omega arith) (omega arith),
)

bit_xor-lt : (w a b : ℕ) → a < 2 ^ w → b < 2 ^ w → bit_xor a b < 2 ^ w
bit_xor-lt w a b p q = omega (arith, bit_xor-bitwise a b, xor_digits-lt w a a b p q)

fold_high-lt : (h : ℕ) → h < 2 ^ 64 → fold_high h < 2 ^ 64
fold_high-lt h p = bit_xor-lt 64 h (h / 2 ^ 33) p (omega arith)

pub hash64-lt : (n : Text) → hash64 n < 2 ^ 64
unfolding hash64
hash64-lt n = fold_high-lt _ (omega arith)

pub leading_zeros-le : (w x : ℕ) → leading_zeros w x ≤ w
unfolding leading_zeros
leading_zeros-le zero x = omega arith
leading_zeros-le (suc w) x = ground (arith, leading_zeros-le w x)

pow-add : (a b : ℕ) → 2 ^ (a + b) ≡ 2 ^ a * 2 ^ b
pow-add zero b = grind arith
pow-add (suc a) b =
    let e : suc a + b ≡ suc (a + b) = omega arith in
    ap (λ k. 2 ^ k) e ∙ grind (arith, pow-add a b, pow-suc 2 (a + b), pow-suc 2 a)

pow-pos : (a : ℕ) → 0 < 2 ^ a
pow-pos zero = omega arith
pow-pos (suc a) = omega (arith, pow-pos a)

div-lt : (x d m : ℕ) → 0 < d → x < d * m → x / d < m
div-lt x d m h l = grind arith

pub pow-le : (a b : ℕ) → a ≤ b → 2 ^ a ≤ 2 ^ b
pow-le a b h =
    let e : b - a + a ≡ b = omega arith in
    subst (λ k. 2 ^ a ≤ 2 ^ k) e (grind (arith, pow-add (b - a) a, pow-pos (b - a)))

quotient-lt :
    (precision x : ℕ) → precision ≤ 64 → x < 2 ^ 64 → x / 2 ^ (64 - precision) < 2 ^ precision
quotient-lt precision x h l =
    div-lt x (2 ^ (64 - precision)) (2 ^ precision) (pow-pos (64 - precision))
      (subst (λ e. x < e) split l)
  where
    split : 2 ^ 64 ≡ 2 ^ (64 - precision) * 2 ^ precision
    split =
        let e : 64 - precision + precision ≡ 64 = omega arith in
        subst (λ e. 2 ^ e ≡ 2 ^ (64 - precision) * 2 ^ precision) e
          (pow-add (64 - precision) precision)

pub index_of-lt : (precision : ℕ) (n : Text) → precision ≤ 64 → index_of precision n < 2 ^ precision
index_of-lt precision n h = ground (arith, quotient-lt precision (hash64 n) h (hash64-lt n))

-- The shift of an `int`: exact below 64 bits, and nothing left from there on.
pub shift_one-below : (precision : ℕ) → precision < 64 → shift_one precision ≡ 2 ^ precision
shift_one-below precision h =
    let e : suc precision ≤ 64 = omega arith in
    omega (arith, pow-le (suc precision) 64 e, pow-suc 2 precision, pow-pos precision)

pub shift_one-above : (precision : ℕ) → 64 ≤ precision → shift_one precision ≡ 0
shift_one-above precision h =
    let e : precision - 64 + 64 ≡ precision = omega arith in
    subst (λ k. 2 ^ k % u64_mod ≡ 0) e (omega (arith, pow-add (precision - 64) 64))

pub rank_of-le : (precision : ℕ) (n : Text) → rank_of precision n ≤ 65
rank_of-le precision n = omega (arith, leading_zeros-le 64 ((hash64 n * 2 ^ precision) % u64_mod))
