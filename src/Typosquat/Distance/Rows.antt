-- ===== src/Typosquat/Distance/Rows.antt =====
-- The rows of internal/typosquat/distance.go against the recursive distance of the prefixes: the
-- entry `j` of row `i` is the distance of the first `j` and the first `i` characters.
use keyholders.Base.{ℕ, suc, ◌+◌, ◌≡◌, refl, sym, ap, ◌∙◌, List, [], ◌∷◌, arith, Text, length}
use keyholders.Typosquat.Distance.{fill, next_row, rows, count_from, last_of, distance_rows}
use keyholders.Typosquat.Distance.Edits.{onto, levenshtein}

-- The rest of a row: `v` is the prefix of `ra` that is behind, and `u` that of `rb`, both reversed.
unfoldable columns : Text → Text → Text → List ℕ
columns v u [] = []
columns v u (x ∷ ra) = levenshtein (x ∷ v) u ∷ columns (x ∷ v) u ra

levenshtein-nil : (v : Text) → levenshtein v [] ≡ length v
unfolding levenshtein
levenshtein-nil [] = refl
levenshtein-nil (x ∷ v) = refl

fill-columns :
    (y : ℕ) (v u ra : Text)
    → fill y (levenshtein v (y ∷ u)) (levenshtein v u) ra (columns v u ra) ≡ columns v (y ∷ u) ra
unfolding fill columns levenshtein
fill-columns y v u [] = refl
fill-columns y v u (x ∷ ra) =
    ap (λ row. levenshtein (x ∷ v) (y ∷ u) ∷ row) (fill-columns y (x ∷ v) u ra)

next_row-columns :
    (y : ℕ) (u ra : Text)
    → next_row (suc (length u)) y ra (levenshtein [] u ∷ columns [] u ra)
      ≡ levenshtein [] (y ∷ u) ∷ columns [] (y ∷ u) ra
unfolding next_row levenshtein
next_row-columns y u ra = ap (λ row. suc (length u) ∷ row) (fill-columns y [] u ra)

rows-columns :
    (u rb ra : Text)
    → rows (suc (length u)) rb ra (levenshtein [] u ∷ columns [] u ra)
      ≡ levenshtein [] (onto rb u) ∷ columns [] (onto rb u) ra
unfolding rows onto
rows-columns u [] ra = refl
rows-columns u (y ∷ rb) ra =
    let index : suc (length u) + 1 ≡ suc (suc (length u)) = omega arith in
    ap (λ k. rows k rb ra (next_row (suc (length u)) y ra (levenshtein [] u ∷ columns [] u ra)))
      index
    ∙ ap (rows (suc (suc (length u))) rb ra) (next_row-columns y u ra)
    ∙ rows-columns (y ∷ u) rb ra

count_from-columns : (v ra : Text) → count_from (length v) ra ≡ levenshtein v [] ∷ columns v [] ra
unfolding count_from columns
count_from-columns v [] = ap (λ n. n ∷ []) (sym (levenshtein-nil v))
count_from-columns v (x ∷ ra) =
    let index : length v + 1 ≡ suc (length v) = omega arith in
    ap (λ k. length v ∷ count_from k ra) index
    ∙ ap (λ row. length v ∷ row) (count_from-columns (x ∷ v) ra)
    ∙ ap (λ n. n ∷ columns v [] (x ∷ ra)) (sym (levenshtein-nil v))

last_of-columns :
    (v u ra : Text) → last_of (levenshtein v u ∷ columns v u ra) ≡ levenshtein (onto ra v) u
unfolding columns last_of onto
last_of-columns v u [] = refl
last_of-columns v u (x ∷ ra) = last_of-columns (x ∷ v) u ra

-- The last entry of the last row is the recursive distance of the reversed names.
pub distance_rows-levenshtein :
    (ra rb : Text) → distance_rows ra rb ≡ levenshtein (onto ra []) (onto rb [])
distance_rows-levenshtein ra rb =
    ap (λ row. last_of (rows 1 rb ra row)) (count_from-columns [] ra)
    ∙ ap last_of (rows-columns [] rb ra)
    ∙ last_of-columns [] (onto rb []) ra
