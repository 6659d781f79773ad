-- ===== src/Sketch/Hll/Union.antt =====
-- What internal/sketch/hll.go holds: a sketch is determined by the set of its members, and a merge
-- is the sketch of the union.
use mathlib.Core.List.{foldl}
use keyholders.Base.{
  ℕ, ◌^◌, ◌≤◌, ◌≡◌, refl, ap, sym, ◌∙◌, max, inl, inr, Bool-cases, true, ◌==◌, ==_iff, ◌↔◌,
  if◌then◌else◌, List, [], ◌∷◌, ◌++◌, Option, none, some, In, All, length, Text, arith, ◌<◌, ◌⊎◌,
  ltb,
}
use keyholders.Sketch.Hll.{
  Hll, new_hll, index_of, rank_of, add_hll, merge_hll, then_add, then_merge, with_registers, zeros,
  make_bytes, raise,
}
use keyholders.Sketch.Hll.Hash.{index_of-lt, rank_of-le, pow-le, shift_one-below, shift_one-above}
use keyholders.Sketch.Hll.Registers.{
  tabulate, length-tabulate, All-tabulate, tabulate-ext, zeros-tabulate, raise-tabulate,
  merge_registers-tabulate,
}

-- A new sketch with the members added one by one.
abbrev pub sketch_of : ℕ → List Text → Option Hll
sketch_of precision members = foldl then_add (new_hll precision) members

-- The highest rank of the members with one index.
unfoldable pub highest : ℕ → List Text → ℕ → ℕ
highest precision [] i = 0
highest precision (n ∷ members) i =
    let rest = highest precision members i in
    if i == index_of precision n then max (rank_of precision n) rest else rest

abbrev pub hll_at : ℕ → (ℕ → ℕ) → Hll
hll_at precision f = record { precision = precision; registers = tabulate (2 ^ precision) f }

==_refl : (n : ℕ) → (n == n) ≡ true
==_refl n = ground arith

highest-bound : (precision : ℕ) (members : List Text) (i : ℕ) → highest precision members i ≤ 65
unfolding highest
highest-bound precision [] i = omega arith
highest-bound precision (n ∷ members) i =
    ground (arith, highest-bound precision members i, rank_of-le precision n)

highest-append :
    (precision : ℕ) (xs ys : List Text) (i : ℕ)
    → highest precision (xs ++ ys) i ≡ max (highest precision xs i) (highest precision ys i)
unfolding highest
highest-append precision [] ys i = omega arith
highest-append precision (n ∷ xs) ys i = ground (arith, highest-append precision xs ys i)

highest-In :
    (precision : ℕ) {n : Text} (ys : List Text) (i : ℕ)
    → In n ys
    → i ≡ index_of precision n
    → rank_of precision n ≤ highest precision ys i
unfolding highest
highest-In precision [] i k e = elim k [ ]
highest-In precision (n ∷ ys) i In.head e = ground (arith, e)
highest-In precision (m ∷ ys) i (In.tail k) e = ground (arith, highest-In precision ys i k e)

highest-le :
    (precision : ℕ) (xs ys : List Text) (i : ℕ)
    → ((n : Text) → In n xs → In n ys)
    → highest precision xs i ≤ highest precision ys i
unfolding highest
highest-le precision [] ys i sub = omega arith
highest-le precision (n ∷ xs) ys i sub =
    let rest = highest-le precision xs ys i (λ m k. sub m (In.tail k)) in
    elim (Bool-cases (i == index_of precision n)) [
      | inl here ↦ rw here (
          ground (
            arith,
            rest,
            highest-In precision ys i (sub n In.head) ((==_iff i (index_of precision n)).0 here),
          ))
      | inr other ↦ rw other rest
    ]

-- Up to the limit of `make` a new sketch has its registers, above it there is none, and from 64
-- on the shift leaves no register.
new_hll-zeros :
    (precision : ℕ)
    → precision ≤ 48
    → new_hll precision ≡ some (record { precision = precision; registers = zeros (2 ^ precision) })
unfolding new_hll make_bytes
new_hll-zeros precision h =
    rw (shift_one-below precision (omega arith)) (ground (arith, pow-le precision 48 h))

new_hll-large : (precision : ℕ) → 48 < precision → precision < 64 → new_hll precision ≡ none
unfolding new_hll make_bytes
new_hll-large precision h l =
    rw (shift_one-below precision l) (ground (arith, pow-le 49 precision (omega arith)))

new_hll-none :
    (precision : ℕ)
    → 64 ≤ precision
    → new_hll precision ≡ some (record { precision = precision; registers = [] })
unfolding new_hll make_bytes
new_hll-none precision h = rw (shift_one-above precision h) refl

foldl-none : (members : List Text) → foldl then_add none members ≡ none
foldl-none [] = refl
foldl-none (n ∷ members) = foldl-none members

then_add-large : (precision : ℕ) (n : Text) → 48 < precision → then_add (new_hll precision) n ≡ none
unfolding add_hll raise
then_add-large precision n h = elim (Bool-cases (ltb precision 64)) [
  | inl small ↦ ap (λ o. then_add o n) (new_hll-large precision h (ground (arith, small)))
  | inr large ↦ ap (λ o. then_add o n) (new_hll-none precision (ground (arith, large)))
]

module _ (precision : ℕ) (h : precision ≤ 48) where
  add_hll-hll_at :
      (f : ℕ → ℕ) (n : Text)
      → add_hll (hll_at precision f) n
        ≡ some (
            hll_at precision
              (λ i. if i == index_of precision n then max (f i) (rank_of precision n) else f i))
  unfolding add_hll
  add_hll-hll_at f n = ap (with_registers precision) (
      raise-tabulate (2 ^ precision) (index_of precision n) (rank_of precision n) f
        (index_of-lt precision n (omega arith)))

  added :
      (f : ℕ → ℕ) (members : List Text)
      → foldl then_add (some (hll_at precision f)) members
        ≡ some (hll_at precision (λ i. max (f i) (highest precision members i)))
  unfolding highest
  added f [] =
      ap (λ rs. with_registers precision (some rs))
        (tabulate-ext (2 ^ precision) f (λ i. max (f i) 0) (λ i. omega arith))
  added f (n ∷ members) =
      let g =
        λ (i : ℕ). if i == index_of precision n then max (f i) (rank_of precision n) else f i in
      ap (λ o. foldl then_add o members) (add_hll-hll_at f n)
      ∙ added g members
      ∙ ap (λ rs. with_registers precision (some rs))
          (tabulate-ext (2 ^ precision) (λ i. max (g i) (highest precision members i))
            (λ i. max (f i) (highest precision (n ∷ members) i)) (λ i. ground arith))

  -- No member is out of range, and register `i` holds the highest rank of the members with index
  -- `i`.
  pub sketch_of-highest :
      (members : List Text)
      → sketch_of precision members ≡ some (hll_at precision (highest precision members))
  sketch_of-highest members =
      ap (λ o. foldl then_add o members) (new_hll-zeros precision h)
      ∙ rw (zeros-tabulate (2 ^ precision)) (
          added (λ i. 0) members
          ∙ ap (λ rs. with_registers precision (some rs))
              (tabulate-ext (2 ^ precision) (λ i. max 0 (highest precision members i))
                (highest precision members) (λ i. omega arith)))

  merge_same :
      (xs ys : List Text)
      → then_merge (sketch_of precision xs) (sketch_of precision ys)
        ≡ sketch_of precision (xs ++ ys)
  unfolding merge_hll
  merge_same xs ys =
      rw (sketch_of-highest xs, sketch_of-highest ys, sketch_of-highest (xs ++ ys))
        (rw
          (
            ==_refl precision,
            merge_registers-tabulate (2 ^ precision) (highest precision xs) (highest precision ys),
          )
          (ap (λ rs. with_registers precision (some rs))
            (tabulate-ext (2 ^ precision)
              (λ i. max (highest precision xs i) (highest precision ys i))
              (highest precision (xs ++ ys)) (λ i. sym (highest-append precision xs ys i)))))

  -- At a precision of at most 48 two lists with the same members give the same sketch, whatever the
  -- order and the repetitions.
  pub sketch_of-same :
      (xs ys : List Text)
      → ((n : Text) → In n xs ↔ In n ys)
      → sketch_of precision xs ≡ sketch_of precision ys
  sketch_of-same xs ys same =
      sketch_of-highest xs
      ∙ ap (λ rs. with_registers precision (some rs))
          (tabulate-ext (2 ^ precision) (highest precision xs) (highest precision ys) (λ i. omega (
            arith,
            highest-le precision xs ys i (λ n k. (same n).0 k),
            highest-le precision ys xs i (λ n k. (same n).1 k),
          )))
      ∙ sym (sketch_of-highest ys)

-- What a sketch of the precision holds after the members.
abbrev pub Fits : ℕ → List Text → Type 0
Fits precision members =
    (s : Hll) × (sketch_of precision members ≡ some s)
    × (length s.registers ≡ 2 ^ precision)
    × All (λ r. r ≤ 65) s.registers

sketch_of-small : (precision : ℕ) (members : List Text) → precision ≤ 48 → Fits precision members
sketch_of-small precision members h = (
  hll_at precision (highest precision members),
  sketch_of-highest precision h members,
  length-tabulate (2 ^ precision) (highest precision members),
  All-tabulate (λ r. r ≤ 65) (2 ^ precision) (highest precision members)
      (highest-bound precision members),
)

-- At a precision of at most 48 no member is out of range: there are `2 ^ precision` registers after
-- any members, and each of them fits a byte. At every other precision there is a panic, with the
-- first member at the latest.
pub sketch_of-Fits :
    (precision : ℕ) (members : List Text)
    → ((precision ≤ 48) × Fits precision members)
      ⊎ ((48 < precision) × ((n : Text) → sketch_of precision (n ∷ members) ≡ none))
sketch_of-Fits precision members = elim (Bool-cases (ltb 48 precision)) [
  | inl large ↦ inr (
    ground (arith, large),
    λ n.
        ap (λ o. foldl then_add o members) (then_add-large precision n (ground (arith, large)))
        ∙ foldl-none members,
  )
  | inr small ↦
      let h : precision ≤ 48 = ground (arith, small) in inl (h, sketch_of-small precision members h)
]

-- At precisions of at most 48 the merge of two sketches is the sketch of the members of both where
-- the precisions are equal, and a panic where they are not.
pub merge-sketch_of :
    (precision other : ℕ) (xs ys : List Text)
    → precision ≤ 48
    → other ≤ 48
    → then_merge (sketch_of precision xs) (sketch_of other ys)
      ≡ (if other == precision then sketch_of precision (xs ++ ys) else none)
unfolding merge_hll
merge-sketch_of precision other xs ys h k = elim (Bool-cases (other == precision)) [
  | inl same ↦
      let e = (==_iff other precision).0 same in rw (same, e) (merge_same precision h xs ys)
  | inr differ ↦ rw (sketch_of-highest precision h xs, sketch_of-highest other k ys, differ) refl
]
