-- ===== src/Semver/Version/Total.antt =====
-- On versions whose numeric identifiers have no leading zero, `Compare` of
-- internal/semver/version.go is a total order up to build metadata.
use Prim.Native.Nat.{Ordering, lt, eq, gt}
use keyholders.Base.{
  ℕ, ◌<◌, ◌≡◌, ◌≢◌, subst, refl, sym, ◌∙◌, ◌⊎◌, inl, inr, Bool, true, false, ◌&&◌, ◌==◌,
  if◌then◌else◌, List, [], ◌∷◌, some, arith, Bool-cases, Option-cases, All, Text, text_eq,
  text_eq_iff, text_lt_trans, text_lt_flip, all_digits, decimal,
}
use keyholders.Base.Decimals.{decimal-injective, decimal_pos}
use keyholders.Semver.Version.{
  Version, numeric_ident, compare_ident, compare_idents, compare_pre, compare,
}

-- The identifier spells a number with a needless zero in front.
unfoldable pub leading_zero : Text → Bool
leading_zero [] = false
leading_zero (c ∷ []) = false
leading_zero (c ∷ d ∷ s) = c == b'0' && all_digits (c ∷ d ∷ s)

-- The identifiers of node-semver: none has a leading zero.
unfoldable pub IsCanonical : Version → Type 0
IsCanonical v = All (λ s. leading_zero s ≡ false) v.pre

numeric_ident-some :
    (c : ℕ) (s : Text) (n : ℕ)
    → numeric_ident (c ∷ s) ≡ some n
    → (all_digits (c ∷ s) ≡ true) × (decimal 0 (c ∷ s) ≡ n)
unfolding numeric_ident
numeric_ident-some c s n h = ground arith

zero_alone :
    (c : ℕ) (s : Text)
    → leading_zero (c ∷ s) ≡ false
    → all_digits (c ∷ s) ≡ true
    → (c == b'0') ≡ true
    → s ≡ []
unfolding leading_zero
zero_alone c [] z h e = refl
zero_alone c (d ∷ s) z h e = ground arith

-- A text that is a single zero is not a positive number.
zero_value :
    (c : ℕ) (r : Text) (m : ℕ) → r ≡ [] → (c == b'0') ≡ true → decimal 0 (c ∷ r) ≡ m → 0 < m → ⊥
unfolding decimal
zero_value c [] m e c0 v p = ground arith
zero_value c (d ∷ r) m e c0 v p = cc

-- Without leading zeros a number has one spelling.
numeric_ident-injective :
    (x y : Text) (n : ℕ)
    → leading_zero x ≡ false
    → leading_zero y ≡ false
    → numeric_ident x ≡ some n
    → numeric_ident y ≡ some n
    → x ≡ y
unfolding numeric_ident
numeric_ident-injective [] y n z w h k = cc
numeric_ident-injective (a ∷ s) [] n z w h k = cc
numeric_ident-injective (a ∷ s) (b ∷ u) n z w h k =
    let (da, va) = numeric_ident-some a s n h in
    let (db, vb) = numeric_ident-some b u n k in
    elim (Bool-cases (a == b'0')) [
      | inl a0 ↦ elim (Bool-cases (b == b'0')) [
        | inl b0 ↦ ground (arith, zero_alone a s z da a0, zero_alone b u w db b0)
        | inr b1 ↦ absurd (
            zero_value a s n (zero_alone a s z da a0) a0 va
              (subst (λ m. 0 < m) vb (decimal_pos b u db b1)))
      ]
      | inr a1 ↦ elim (Bool-cases (b == b'0')) [
        | inl b0 ↦ absurd (
            zero_value b u n (zero_alone b u w db b0) b0 vb
              (subst (λ m. 0 < m) va (decimal_pos a s da a1)))
        | inr b1 ↦ decimal-injective a b s u da db a1 b1 (va ∙ sym vb)
      ]
    ]

pub Ordering-cases : (o : Ordering) → (o ≡ lt) ⊎ ((o ≡ eq) ⊎ (o ≡ gt))
Ordering-cases lt = inl refl
Ordering-cases eq = inr (inl refl)
Ordering-cases gt = inr (inr refl)

-- The comparison of two identifiers, equal ones included.
abbrev cmp : Text → Text → Ordering
cmp x y = if text_eq x y then eq else compare_ident x y

cmp-eq : (x y : Text) → leading_zero x ≡ false → leading_zero y ≡ false → cmp x y ≡ eq → x ≡ y
unfolding compare_ident
cmp-eq x y z w h = elim (Option-cases (numeric_ident x)) [
  | inl none_x ↦ ground (arith, text_eq_iff x y)
  | inr (n, hx) ↦ ground (arith, text_eq_iff x y, numeric_ident-injective x y n)
]

cmp_trans : (x y z : Text) → cmp x y ≡ lt → cmp y z ≡ lt → cmp x z ≡ lt
unfolding compare_ident
cmp_trans x y z h k = ground (
  arith,
  text_eq_iff x z,
  text_eq_iff x y,
  text_eq_iff y z,
  text_lt_trans x y z,
  text_lt_flip x y,
  text_lt_flip y z,
)

Canonical : List Text → Type 0
Canonical a = All (λ s. leading_zero s ≡ false) a

compare_idents-eq : (a b : List Text) → Canonical a → Canonical b → compare_idents a b ≡ eq → a ≡ b
unfolding compare_idents Canonical
compare_idents-eq [] [] p q h = refl
compare_idents-eq [] (y ∷ b) p q h = cc
compare_idents-eq (x ∷ a) [] p q h = cc
compare_idents-eq (x ∷ a) (y ∷ b) p q h =
    ground (arith, text_eq_iff x y, cmp-eq x y p.0 q.0, compare_idents-eq a b p.1 q.1)

compare_idents_trans :
    (a b c : List Text)
    → Canonical a
    → Canonical b
    → Canonical c
    → compare_idents a b ≡ lt
    → compare_idents b c ≡ lt
    → compare_idents a c ≡ lt
unfolding compare_idents Canonical
compare_idents_trans [] [] c p q r h k = cc
compare_idents_trans (x ∷ a) [] c p q r h k = cc
compare_idents_trans a (y ∷ b) [] p q r h k = cc
compare_idents_trans [] (y ∷ b) (z ∷ c) p q r h k = refl
compare_idents_trans (x ∷ a) (y ∷ b) (z ∷ c) p q r h k = ground (
  arith,
  text_eq_iff x y,
  text_eq_iff y z,
  text_eq_iff x z,
  cmp-eq x y p.0 q.0,
  cmp-eq y z q.0 r.0,
  cmp_trans x y z,
  compare_idents_trans a b c p.1 q.1 r.1,
)

compare_pre-eq : (a b : List Text) → Canonical a → Canonical b → compare_pre a b ≡ eq → a ≡ b
unfolding compare_pre
compare_pre-eq [] [] p q h = refl
compare_pre-eq [] (y ∷ b) p q h = cc
compare_pre-eq (x ∷ a) [] p q h = cc
compare_pre-eq (x ∷ a) (y ∷ b) p q h = compare_idents-eq (x ∷ a) (y ∷ b) p q h

compare_pre_trans :
    (a b c : List Text)
    → Canonical a
    → Canonical b
    → Canonical c
    → compare_pre a b ≡ lt
    → compare_pre b c ≡ lt
    → compare_pre a c ≡ lt
unfolding compare_pre
compare_pre_trans [] [] c p q r h k = cc
compare_pre_trans [] (y ∷ b) c p q r h k = cc
compare_pre_trans (x ∷ a) [] [] p q r h k = cc
compare_pre_trans (x ∷ a) [] (z ∷ c) p q r h k = cc
compare_pre_trans (x ∷ a) (y ∷ b) [] p q r h k = refl
compare_pre_trans (x ∷ a) (y ∷ b) (z ∷ c) p q r h k =
    compare_idents_trans (x ∷ a) (y ∷ b) (z ∷ c) p q r h k

-- Two versions without leading zeros in their identifiers that compare as equal have the same
-- numbers and the same identifiers.
pub compare-eq :
    (v o : Version)
    → IsCanonical v
    → IsCanonical o
    → compare v o ≡ eq
    → (v.major ≡ o.major) × (v.minor ≡ o.minor) × (v.patch ≡ o.patch) × (v.pre ≡ o.pre)
unfolding compare IsCanonical Canonical
compare-eq v o p q h = ground (arith, compare_pre-eq v.pre o.pre p q)

-- Below is transitive on versions without leading zeros in their identifiers.
pub compare_trans :
    (v o w : Version)
    → IsCanonical v
    → IsCanonical o
    → IsCanonical w
    → compare v o ≡ lt
    → compare o w ≡ lt
    → compare v w ≡ lt
unfolding compare IsCanonical Canonical
compare_trans v o w p q r h k = ground (
  arith,
  compare_pre-eq v.pre o.pre p q,
  compare_pre-eq o.pre w.pre q r,
  compare_pre_trans v.pre o.pre w.pre p q r,
)

-- Equal numbers and identifiers compare alike with any third version.
compare-congruence :
    (v o w : Version)
    → (v.major ≡ o.major) × (v.minor ≡ o.minor) × (v.patch ≡ o.patch) × (v.pre ≡ o.pre)
    → (compare v w ≡ compare o w) × (compare w v ≡ compare w o)
unfolding compare
compare-congruence v o w (a, b, c, d) = (rw (a, b, c, d) refl, rw (a, b, c, d) refl)

-- "Not above" is transitive.
pub compare-le_trans :
    (v o w : Version)
    → IsCanonical v
    → IsCanonical o
    → IsCanonical w
    → compare v o ≢ gt
    → compare o w ≢ gt
    → compare v w ≢ gt
compare-le_trans v o w p q r h k = elim (Ordering-cases (compare v o)) [
  | inl below ↦ elim (Ordering-cases (compare o w)) [
    | inl below' ↦ λ e. cc (compare_trans v o w p q r below below')
    | inr rest ↦ elim rest [
      | inl same ↦ λ e. cc ((compare-congruence o w v (compare-eq o w q r same)).1)
      | inr above ↦ absurd (k above)
    ]
  ]
  | inr rest ↦ elim rest [
    | inl same ↦ λ e. k (sym (compare-congruence v o w (compare-eq v o p q same)).0 ∙ e)
    | inr above ↦ absurd (h above)
  ]
]
