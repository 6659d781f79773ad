-- ===== src/Sketch/Hll/Registers.antt =====
-- The registers of internal/sketch/hll.go as a function of their index.
use keyholders.Base.{
  ℕ, zero, suc, ◌<◌, ◌≡◌, refl, ap, max, ◌==◌, if◌then◌else◌, List, [], ◌∷◌, some, length, All,
  arith,
}
use keyholders.Sketch.Hll.{zeros, raise, merge_registers}

abbrev pub tabulate : ℕ → (ℕ → ℕ) → List ℕ
tabulate zero f = []
tabulate (suc n) f = f 0 ∷ tabulate n (λ i. f (suc i))

pub tabulate-ext : (n : ℕ) (f g : ℕ → ℕ) → ((i : ℕ) → f i ≡ g i) → tabulate n f ≡ tabulate n g
tabulate-ext zero f g h = refl
tabulate-ext (suc n) f g h =
    let rest = tabulate-ext n (λ i. f (suc i)) (λ i. g (suc i)) (λ i. h (suc i)) in
    rw (h 0, rest) refl

pub zeros-tabulate : (n : ℕ) → zeros n ≡ tabulate n (λ i. 0)
zeros-tabulate zero = refl
zeros-tabulate (suc n) = ap (λ rs. 0 ∷ rs) (zeros-tabulate n)

-- An existing register is raised and the others stay.
pub raise-tabulate :
    (n idx rank : ℕ) (f : ℕ → ℕ)
    → idx < n
    → raise idx rank (tabulate n f)
      ≡ some (tabulate n (λ i. if i == idx then max (f i) rank else f i))
unfolding raise
raise-tabulate zero idx rank f h = absurd (omega arith)
raise-tabulate (suc n) zero rank f h = ground arith
raise-tabulate (suc n) (suc idx) rank f h =
    let raised = raise-tabulate n idx rank (λ i. f (suc i)) (omega arith) in
    let same =
      tabulate-ext n (λ i. if i == idx then max (f (suc i)) rank else f (suc i))
        (λ i. if suc i == suc idx then max (f (suc i)) rank else f (suc i)) (λ i. ground arith) in
    ground (arith, raised, same)

pub merge_registers-tabulate :
    (n : ℕ) (f g : ℕ → ℕ)
    → merge_registers (tabulate n f) (tabulate n g) ≡ some (tabulate n (λ i. max (f i) (g i)))
unfolding merge_registers
merge_registers-tabulate zero f g = refl
merge_registers-tabulate (suc n) f g =
    rw (merge_registers-tabulate n (λ i. f (suc i)) (λ i. g (suc i))) (ground arith)

pub length-tabulate : (n : ℕ) (f : ℕ → ℕ) → length (tabulate n f) ≡ n
length-tabulate zero f = refl
length-tabulate (suc n) f = ap suc (length-tabulate n (λ i. f (suc i)))

pub All-tabulate : (P : ℕ → Type 0) (n : ℕ) (f : ℕ → ℕ) → ((i : ℕ) → P (f i)) → All P (tabulate n f)
All-tabulate P zero f h = tt
All-tabulate P (suc n) f h = (h 0, All-tabulate P n (λ i. f (suc i)) (λ i. h (suc i)))
