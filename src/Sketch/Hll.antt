-- ===== src/Sketch/Hll.antt =====
-- internal/sketch/hll.go: the estimator's registers. A panic is `none`. The estimate itself is
-- floating point and a parameter.
pub mod Hash
pub mod Registers
pub mod Union
use Prim.Native.Nat.{bit_xor}
use mathlib.Core.List.{foldl}
use keyholders.Base.{
  ℕ, zero, suc, ◌+◌, ◌-◌, ◌*◌, ◌/◌, ◌%◌, ◌^◌, ltb, leb, ◌==◌, if◌then◌else◌, List, [], ◌∷◌, Option,
  none, some, Text, u64_mod,
}
use keyholders.Graph.Id.{mix, fnv_offset_64}
use keyholders.Sketch.Exact.{Sketch}

pub record Hll : Type 0 where
  pub precision : ℕ
  pub registers : List ℕ

abbrev pub zeros : ℕ → List ℕ
zeros zero = []
zeros (suc n) = 0 ∷ zeros n

-- The most bytes that `make` gives on a 64-bit platform. Running out of memory below that is not
-- modelled.
abbrev pub max_alloc : ℕ
max_alloc = 2 ^ 48

-- `1 << precision` on an `int`, as its bit pattern: 0 from 64 on, and a negative number at 63.
abbrev pub shift_one : ℕ → ℕ
shift_one precision = 2 ^ precision % u64_mod

-- `make([]byte, n)`: the pattern of a negative number is above the limit, and both panic.
unfoldable pub make_bytes : ℕ → Option (List ℕ)
make_bytes n = if leb n max_alloc then some (zeros n) else none

abbrev pub with_registers : ℕ → Option (List ℕ) → Option Hll
with_registers precision none = none
with_registers precision (some registers) =
    some (record { precision = precision; registers = registers })

unfoldable pub new_hll : ℕ → Option Hll
new_hll precision = with_registers precision (make_bytes (shift_one precision))

-- `h ^= h >> 33`
abbrev pub fold_high : ℕ → ℕ
fold_high h = bit_xor h (h / 2 ^ 33)

-- The loop is that of internal/graph/id.go; then comes the finalizer of MurmurHash3.
unfoldable pub hash64 : Text → ℕ
hash64 n =
    let h = foldl mix fnv_offset_64 n in
    let h1 = (fold_high h * 0xff51_afd7_ed55_8ccd) % u64_mod in
    let h2 = (fold_high h1 * 0xc4ce_b9fe_1a85_ec53) % u64_mod in fold_high h2

-- `bits.LeadingZeros64` on a number of `width` bits.
unfoldable pub leading_zeros : ℕ → ℕ → ℕ
leading_zeros zero x = 0
leading_zeros (suc width) x =
    let rest = leading_zeros width x in if ltb x (2 ^ width) then suc rest else 0

-- Above 64 the difference wraps, and a shift by so much leaves nothing.
abbrev pub index_of : ℕ → Text → ℕ
index_of precision n = if ltb 64 precision then 0 else hash64 n / 2 ^ (64 - precision)

abbrev pub rank_of : ℕ → Text → ℕ
rank_of precision n = leading_zeros 64 ((hash64 n * 2 ^ precision) % u64_mod) + 1

-- Raises one register; an index out of range is a panic.
unfoldable pub raise : ℕ → ℕ → List ℕ → Option (List ℕ)
raise idx rank [] = none
raise zero rank (r ∷ registers) = some ((if ltb r rank then rank else r) ∷ registers)
raise (suc idx) rank (r ∷ registers) = elim (raise idx rank registers) [
  | none ↦ none
  | some raised ↦ some (r ∷ raised)
]

unfoldable pub add_hll : Hll → Text → Option Hll
add_hll h n =
    with_registers h.precision (raise (index_of h.precision n) (rank_of h.precision n) h.registers)

-- The loop over the other sketch's registers.
unfoldable pub merge_registers : List ℕ → List ℕ → Option (List ℕ)
merge_registers mine [] = some mine
merge_registers [] (r ∷ other) = none
merge_registers (m ∷ mine) (r ∷ other) = elim (merge_registers mine other) [
  | none ↦ none
  | some merged ↦ some ((if ltb m r then r else m) ∷ merged)
]

unfoldable pub merge_hll : Hll → Hll → Option Hll
merge_hll h o =
    if o.precision == h.precision
    then with_registers h.precision (merge_registers h.registers o.registers)
    else none

abbrev pub then_add : Option Hll → Text → Option Hll
then_add none n = none
then_add (some h) n = add_hll h n

abbrev pub then_merge : Option Hll → Option Hll → Option Hll
then_merge none o = none
then_merge (some h) none = none
then_merge (some h) (some o) = merge_hll h o

abbrev pub then_count : (Hll → ℕ) → Option Hll → ℕ
then_count estimate none = 0
then_count estimate (some h) = estimate h

-- The sketch that an engine is configured with, for the estimate `Count` computes.
abbrev pub hll_sketch : ℕ → (Hll → ℕ) → Sketch (Option Hll)
hll_sketch precision estimate = record {
  new = new_hll precision;
  add = then_add;
  merge = then_merge;
  count = then_count estimate;
}
