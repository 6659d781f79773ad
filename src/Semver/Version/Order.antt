-- ===== src/Semver/Version/Order.antt =====
-- The order of internal/semver/version.go: exchanging the arguments of `Compare` exchanges
-- its answers.
use Prim.Native.Nat.{Ordering, lt, eq, gt}
use keyholders.Base.{
  ℕ, ◌≡◌, refl, false, List, [], ◌∷◌, arith, Text, text_eq, text_eq_iff, text_eq_refl, text_lt_flip,
}
use keyholders.Semver.Version.{
  Version, cmp_uint, compare_ident, compare_idents, compare_pre, compare,
}

-- The answer with the two sides exchanged.
abbrev pub swap : Ordering → Ordering
swap lt = gt
swap eq = eq
swap gt = lt

cmp_uint-swap : (a b : ℕ) → cmp_uint b a ≡ swap (cmp_uint a b)
cmp_uint-swap a b = ground arith

compare_ident-swap :
    (x y : Text) → text_eq x y ≡ false → compare_ident y x ≡ swap (compare_ident x y)
unfolding compare_ident
compare_ident-swap x y h = ground (arith, text_lt_flip x y)

text_eq_comm : (x y : Text) → text_eq y x ≡ text_eq x y
text_eq_comm x y = ground (arith, text_eq_iff x y, text_eq_iff y x)

compare_idents-swap : (a b : List Text) → compare_idents b a ≡ swap (compare_idents a b)
unfolding compare_idents
compare_idents-swap [] [] = refl
compare_idents-swap [] (y ∷ b) = refl
compare_idents-swap (x ∷ a) [] = refl
compare_idents-swap (x ∷ a) (y ∷ b) =
    ground (arith, text_eq_comm x y, compare_ident-swap x y, compare_idents-swap a b)

compare_pre-swap : (a b : List Text) → compare_pre b a ≡ swap (compare_pre a b)
unfolding compare_pre
compare_pre-swap [] [] = refl
compare_pre-swap [] (y ∷ b) = refl
compare_pre-swap (x ∷ a) [] = refl
compare_pre-swap (x ∷ a) (y ∷ b) = compare_idents-swap (x ∷ a) (y ∷ b)

-- Exchanging the two versions exchanges below and above in what `Compare` answers.
pub compare-swap : (v o : Version) → compare o v ≡ swap (compare v o)
unfolding compare
compare-swap v o = ground (arith, compare_pre-swap v.pre o.pre)

compare_idents_self : (a : List Text) → compare_idents a a ≡ eq
unfolding compare_idents
compare_idents_self [] = refl
compare_idents_self (x ∷ a) = ground (arith, text_eq_refl x, compare_idents_self a)

compare_pre_self : (a : List Text) → compare_pre a a ≡ eq
unfolding compare_pre
compare_pre_self [] = refl
compare_pre_self (x ∷ a) = compare_idents_self (x ∷ a)

-- A version compares as equal to itself.
pub compare_self : (v : Version) → compare v v ≡ eq
unfolding compare
compare_self v = ground (arith, compare_pre_self v.pre)
