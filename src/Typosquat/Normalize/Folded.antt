-- ===== src/Typosquat/Normalize/Folded.antt =====
-- What is left of a name in internal/typosquat/normalize.go.
use keyholders.Base.{
  ℕ, ◌≡◌, refl, sym, ap, subst, Bool, false, ◌&&◌, ◌||◌, leb, ◌==◌, [], ◌∷◌, Text, arith,
  Bool-cases, inl, inr, All,
}
use keyholders.Base.Cutting.{Lacks, cut-none}
use keyholders.Typosquat.Normalize.{
  lower, to_lower, letter_of, replace_homoglyphs, is_separator, drop_separators, fold_name,
  normalize,
}

abbrev pub is_upper : ℕ → Bool
is_upper c = leb b'A' c && leb c b'Z'

-- The digits that stand for letters.
abbrev pub is_glyph : ℕ → Bool
is_glyph c = c == b'0' || (c == b'1' || (c == b'3' || (c == b'4' || (c == b'5' || c == b'7'))))

abbrev Small : Text → Type 0
Small s = All (λ c. is_upper c ≡ false) s

abbrev Plain : Text → Type 0
Plain s = All (λ c. (is_upper c ≡ false) × (is_glyph c ≡ false)) s

to_lower-All : (s : Text) → Small (to_lower s)
to_lower-All [] = tt
to_lower-All (c ∷ s) = (lower_small c, to_lower-All s)
  where
    lower_small : (c : ℕ) → is_upper (lower c) ≡ false
    lower_small c = ground arith

letter_plain :
    (c : ℕ)
    → is_upper c ≡ false
    → (is_upper (letter_of c) ≡ false) × (is_glyph (letter_of c) ≡ false)
letter_plain c h = (ground arith, ground arith)

replace_homoglyphs-All : (s : Text) → Small s → Plain (replace_homoglyphs s)
unfolding replace_homoglyphs
replace_homoglyphs-All [] h = tt
replace_homoglyphs-All (c ∷ []) h = (letter_plain c h.0, tt)
replace_homoglyphs-All (c ∷ d ∷ s) h =
    let rest = replace_homoglyphs-All (d ∷ s) h.1 in
    let after_pair = replace_homoglyphs-All s h.1.1 in
    elim (Bool-cases (c == b'r' && d == b'n')) [
      | inl rn ↦ rw rn ((refl, refl), after_pair)
      | inr other ↦ elim (Bool-cases (c == b'v' && d == b'v')) [
        | inl vv ↦ rw (other, vv) ((refl, refl), after_pair)
        | inr single ↦ rw (other, single) (letter_plain c h.0, rest)
      ]
    ]

-- A byte of a folded name.
abbrev pub IsFolded : ℕ → Type 0
IsFolded c = (is_upper c ≡ false) × (is_glyph c ≡ false) × (is_separator c ≡ false)

drop_separators-All : (s : Text) → Plain s → All IsFolded (drop_separators s)
unfolding drop_separators
drop_separators-All [] h = tt
drop_separators-All (c ∷ s) h = elim (Bool-cases (is_separator c)) [
  | inl gone ↦ rw gone (drop_separators-All s h.1)
  | inr kept ↦ rw kept ((h.0.0, h.0.1, kept), drop_separators-All s h.1)
]

normalize-fold_name : (name : Text) → Lacks b'/' name → normalize name ≡ fold_name name
unfolding normalize
normalize-fold_name name h =
    let whole = cut-none b'/' name h in rw (normalize, whole) (ap (λ p. fold_name p.0) whole)

-- A name without a scope is normalized to bytes that are no upper case letter, no digit that stands
-- for a letter, and no separator.
pub normalize-IsFolded : (name : Text) → Lacks b'/' name → All IsFolded (normalize name)
normalize-IsFolded name h = subst (All IsFolded) (sym (normalize-fold_name name h)) (
    drop_separators-All (replace_homoglyphs (to_lower name))
      (replace_homoglyphs-All (to_lower name) (to_lower-All name)))
