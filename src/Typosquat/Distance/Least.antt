-- ===== src/Typosquat/Distance/Least.antt =====
-- The recursive distance is the least number of edits.
use mathlib.Core.List.{append-nil}
use keyholders.Base.{
  ℕ, suc, ◌+◌, ◌≤◌, ◌≡◌, sym, ◌∙◌, subst, min, ◌==◌, ==_iff, text_eq, text_eq→eq, ltb, [], ◌∷◌,
  arith, Text, length, Bool-cases, inl, inr, ◌⊎◌,
}
use keyholders.Typosquat.Distance.{cost, distance_rows, edit_distance}
use keyholders.Typosquat.Distance.Edits.{
  Edits, Edits-flip, Edits-onto, onto, onto-onto, levenshtein,
}
use keyholders.Typosquat.Distance.Rows.{distance_rows-levenshtein}

insert_all : (b : Text) → Edits (length b) [] b
insert_all [] = Edits.done
insert_all (y ∷ b) = Edits.insert (insert_all b)

keep_all : (a : Text) → Edits 0 a a
keep_all [] = Edits.done
keep_all (x ∷ a) = Edits.keep (keep_all a)

diagonal : {n x y : ℕ} {a b : Text} → Edits n a b → Edits (n + cost x y) (x ∷ a) (y ∷ b)
diagonal {n = n} {x = x} {y = y} {a = a} {b = b} e = elim (Bool-cases (x == y)) [
  | inl same ↦
      let none_more : n ≡ n + cost x y = ground arith in
      subst (λ k. Edits k (x ∷ a) (y ∷ b)) none_more
        (subst (λ z. Edits n (x ∷ a) (z ∷ b)) ((==_iff x y).0 same) (Edits.keep e))
  | inr other ↦
      let one_more : suc n ≡ n + cost x y = ground arith in
      subst (λ k. Edits k (x ∷ a) (y ∷ b)) one_more (Edits.substitute e)
]

min-cases : (k l m : ℕ) → (min (min k l) m ≡ k) ⊎ ((min (min k l) m ≡ l) ⊎ (min (min k l) m ≡ m))
min-cases k l m = ground arith

levenshtein-Edits : (a b : Text) → Edits (levenshtein a b) a b
unfolding levenshtein
levenshtein-Edits [] b = insert_all b
levenshtein-Edits (x ∷ a) [] = Edits.delete (Edits-flip (insert_all a))
levenshtein-Edits (x ∷ a) (y ∷ b) =
    let k = levenshtein (x ∷ a) b in
    let l = levenshtein a (y ∷ b) in
    let m = levenshtein a b + cost x y in
    elim (min-cases (k + 1) (l + 1) m) [
      | inl e ↦
          let one : suc k ≡ min (min (k + 1) (l + 1)) m = omega arith in
          subst (λ n. Edits n (x ∷ a) (y ∷ b)) one (Edits.insert (levenshtein-Edits (x ∷ a) b))
      | inr other ↦ elim other [
        | inl e ↦
            let one : suc l ≡ min (min (k + 1) (l + 1)) m = omega arith in
            subst (λ n. Edits n (x ∷ a) (y ∷ b)) one (Edits.delete (levenshtein-Edits a (y ∷ b)))
        | inr e ↦ subst (λ n. Edits n (x ∷ a) (y ∷ b)) (sym e) (diagonal (levenshtein-Edits a b))
      ]
    ]

insert_one : (a b : Text) (y : ℕ) → levenshtein a (y ∷ b) ≤ suc (levenshtein a b)
unfolding levenshtein
insert_one [] b y = omega arith
insert_one (x ∷ a) b y = omega arith

delete_one : (a b : Text) (x : ℕ) → levenshtein (x ∷ a) b ≤ suc (levenshtein a b)
unfolding levenshtein
delete_one [] [] x = omega arith
delete_one (z ∷ a) [] x = omega arith
delete_one a (y ∷ b) x = omega arith

levenshtein-least : {n : ℕ} {a b : Text} → Edits n a b → levenshtein a b ≤ n
unfolding levenshtein
levenshtein-least Edits.done = omega arith
levenshtein-least (Edits.keep {n} {x} {a} {b} e) = ground (arith, levenshtein-least e)
levenshtein-least (Edits.substitute {n} {x} {y} {a} {b} e) = ground (arith, levenshtein-least e)
levenshtein-least (Edits.insert {n} {y} {a} {b} e) =
    omega (arith, insert_one a b y, levenshtein-least e)
levenshtein-least (Edits.delete {n} {x} {a} {b} e) =
    omega (arith, delete_one a b x, levenshtein-least e)

reversed : {n : ℕ} {a b : Text} → Edits n a b → Edits n (onto a []) (onto b [])
reversed {n = n} {a = a} {b = b} e =
    subst (λ k. Edits k (onto a []) (onto b [])) (omega arith) (Edits-onto e Edits.done)

twice : (a : Text) → onto (onto a []) [] ≡ a
unfolding onto
twice a = onto-onto a [] [] ∙ append-nil a

unreversed : {n : ℕ} {a b : Text} → Edits n (onto a []) (onto b []) → Edits n a b
unreversed {n = n} {a = a} {b = b} e =
    subst (λ c. Edits n c b) (twice a)
      (subst (λ c. Edits n (onto (onto a []) []) c) (twice b) (reversed e))

-- The least number of edits that turn one name into the other.
pub record IsLeast (n : ℕ) (a b : Text) : Type 0 where
  pub attained : Edits n a b
  pub least : (m : ℕ) → Edits m a b → n ≤ m

distance_rows-IsLeast : (ra rb : Text) → IsLeast (distance_rows ra rb) ra rb
distance_rows-IsLeast ra rb =
    let same = distance_rows-levenshtein ra rb in
    let u = onto ra [] in
    let v = onto rb [] in
    record {
      attained = unreversed (subst (λ n. Edits n u v) (sym same) (levenshtein-Edits u v));
      least = λ m e. subst (λ n. n ≤ m) (sym same) (levenshtein-least (reversed e));
    }

-- `EditDistance` is the least number of insertions, deletions and substitutions of one character
-- that turn the first name into the second.
pub edit_distance-IsLeast : (a b : Text) → IsLeast (edit_distance a b) a b
unfolding edit_distance
edit_distance-IsLeast a b = elim (Bool-cases (text_eq a b)) [
  | inl same ↦ rw same (record {
    attained = subst (λ c. Edits 0 a c) (text_eq→eq a b same) (keep_all a);
    least = λ m e. omega arith;
  })
  | inr other ↦ elim (Bool-cases (ltb (length b) (length a))) [
    | inl longer ↦
        let r = distance_rows-IsLeast b a in
        rw (other, longer)
          (record { attained = Edits-flip r.attained; least = λ m e. r.least m (Edits-flip e) })
    | inr shorter ↦ rw (other, shorter) (distance_rows-IsLeast a b)
  ]
]
