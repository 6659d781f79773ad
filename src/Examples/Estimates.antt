-- ===== src/Examples/Estimates.antt =====
-- internal/sketch/hll.go with four registers.
use keyholders.Base.{
  ℕ, ◌≡◌, ◌≤◌, ◌==◌, if◌then◌else◌, refl, List, [], ◌∷◌, ◌++◌, none, some, Text, bytes, arith, ◌<◌,
  ◌⊎◌,
}
use keyholders.Sketch.Hll.{hash64, leading_zeros, new_hll, make_bytes, raise, add_hll, then_merge}
use keyholders.Sketch.Hll.Union.{sketch_of, Fits, merge-sketch_of, sketch_of-Fits}

abbrev names : List Text
names = bytes "a" ∷ bytes "b" ∷ bytes "c" ∷ []

hash64-a : hash64 (bytes "a") ≡ 9413272369427828315
unfolding hash64
hash64-a = refl

abbrev held : List ℕ
held = 0 ∷ 1 ∷ 5 ∷ 0 ∷ []

sketch_of-names : sketch_of 2 names ≡ some (record { precision = 2; registers = held })
unfolding hash64 leading_zeros new_hll make_bytes raise add_hll
sketch_of-names = refl

merge-sketch_of_example :
    then_merge (sketch_of 4 names) (sketch_of 5 names)
    ≡ (if 5 == 4 then sketch_of 4 (names ++ names) else none)
merge-sketch_of_example = merge-sketch_of 4 5 names names (omega arith) (omega arith)

sketch_of-Fits_example :
    ((4 ≤ 48) × Fits 4 names) ⊎ ((48 < 4) × ((n : Text) → sketch_of 4 (n ∷ names) ≡ none))
sketch_of-Fits_example = sketch_of-Fits 4 names

-- The shift leaves no registers, and the first member is out of range.
sketch_of-empty :
    (sketch_of 64 [] ≡ some (record { precision = 64; registers = [] }))
    × (sketch_of 64 names ≡ none)
unfolding hash64 leading_zeros new_hll make_bytes raise add_hll
sketch_of-empty = (refl, refl)
