-- ===== src/Typosquat/Distance/Edits.antt =====
-- What internal/typosquat/distance.go measures: insertions, deletions and substitutions of single
-- characters that turn one name into another, and the recursive definition of the distance.
use keyholders.Base.{ℕ, suc, ◌+◌, ◌≡◌, refl, subst, min, [], ◌∷◌, ◌++◌, arith, Text, length}
use keyholders.Typosquat.Distance.{cost}

-- `Edits n a b`: `n` edits turn `a` into `b`.
pub data Edits : ℕ → Text → Text → Type 0 where
  done : Edits 0 [] []
  keep : {n x : ℕ} {a b : Text} → Edits n a b → Edits n (x ∷ a) (x ∷ b)
  substitute : {n x y : ℕ} {a b : Text} → Edits n a b → Edits (suc n) (x ∷ a) (y ∷ b)
  insert : {n y : ℕ} {a b : Text} → Edits n a b → Edits (suc n) a (y ∷ b)
  delete : {n x : ℕ} {a b : Text} → Edits n a b → Edits (suc n) (x ∷ a) b

pub Edits-flip : {n : ℕ} {a b : Text} → Edits n a b → Edits n b a
Edits-flip Edits.done = Edits.done
Edits-flip (Edits.keep e) = Edits.keep (Edits-flip e)
Edits-flip (Edits.substitute e) = Edits.substitute (Edits-flip e)
Edits-flip (Edits.insert e) = Edits.delete (Edits-flip e)
Edits-flip (Edits.delete e) = Edits.insert (Edits-flip e)

-- `a` in reverse, before `u`.
unfoldable pub onto : Text → Text → Text
onto [] u = u
onto (x ∷ a) u = onto a (x ∷ u)

pub onto-onto : (a u w : Text) → onto (onto a u) w ≡ onto u (a ++ w)
unfolding onto
onto-onto [] u w = refl
onto-onto (x ∷ a) u w = onto-onto a (x ∷ u) w

-- Edits of two parts are edits of the whole, the first part reversed.
pub Edits-onto :
    {n m : ℕ} {a b u v : Text} → Edits n a b → Edits m u v → Edits (n + m) (onto a u) (onto b v)
unfolding onto
Edits-onto {m = m} {u = u} {v = v} Edits.done f = subst (λ k. Edits k u v) (omega arith) f
Edits-onto (Edits.keep e) f = Edits-onto e (Edits.keep f)
Edits-onto {m = m} {a = x ∷ a} {b = y ∷ b} {u = u} {v = v} (Edits.substitute {n} e) f =
    subst (λ k. Edits k (onto a (x ∷ u)) (onto b (y ∷ v))) (omega arith)
      (Edits-onto e (Edits.substitute f))
Edits-onto {m = m} {a = a} {b = y ∷ b} {u = u} {v = v} (Edits.insert {n} e) f =
    subst (λ k. Edits k (onto a u) (onto b (y ∷ v))) (omega arith) (Edits-onto e (Edits.insert f))
Edits-onto {m = m} {a = x ∷ a} {b = b} {u = u} {v = v} (Edits.delete {n} e) f =
    subst (λ k. Edits k (onto a (x ∷ u)) (onto b v)) (omega arith) (Edits-onto e (Edits.delete f))

-- The recursive definition of the distance.
unfoldable pub levenshtein : Text → Text → ℕ
levenshtein [] b = length b
levenshtein (x ∷ a) [] = suc (length a)
levenshtein (x ∷ a) (y ∷ b) =
    min (min (levenshtein (x ∷ a) b + 1) (levenshtein a (y ∷ b) + 1)) (levenshtein a b + cost x y)
