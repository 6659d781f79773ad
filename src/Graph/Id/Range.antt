-- ===== src/Graph/Id/Range.antt =====
-- The ids of internal/graph/id.go as the database takes them: no id has the sign bit.
use Prim.Native.Nat.{bit_and, digits, bit_and-bitwise}
use keyholders.Base.{ℕ, zero, suc, ◌/◌, ◌^◌, ◌≤◌, ◌<◌, min, Text, arith}
use keyholders.Graph.Id.{id, non_neg_mask}

-- `bit_and` digit by digit.
abbrev and_digits : ℕ → ℕ → ℕ → ℕ
and_digits n a b = digits (λ b. zero) min n a b

and_digits-le : (n a b : ℕ) → a ≤ n → and_digits n a b ≤ b
and_digits-le zero zero b h = omega arith
and_digits-le zero (suc a) b h = absurd (omega arith)
and_digits-le (suc n) zero b h = omega arith
and_digits-le (suc n) (suc a) b h = omega (arith, and_digits-le n (suc a / 2) (b / 2) (omega arith))

bit_and-le : (a b : ℕ) → bit_and a b ≤ b
bit_and-le a b = omega (arith, bit_and-bitwise a b, and_digits-le a a b (omega arith))

-- The ids of all nodes and of all edges lie below 2 ^ 63.
pub id-lt : (urn : Text) → id urn < 2 ^ 63
unfolding id
id-lt urn = omega (arith, bit_and-le _ non_neg_mask)
