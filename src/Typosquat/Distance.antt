-- ===== src/Typosquat/Distance.antt =====
-- internal/typosquat/distance.go. A name is the list of its runes, which the source decodes from
-- the bytes of the string.
pub mod Edits
pub mod Rows
pub mod Least
use keyholders.Base.{
  ℕ, suc, ◌+◌, Bool, min, ltb, ◌==◌, if◌then◌else◌, List, [], ◌∷◌, Text, text_eq, length,
}

abbrev pub cost : ℕ → ℕ → ℕ
cost x y = if x == y then 0 else 1

-- The inner loop. `left` is `curr[j-1]`, `diagonal` is `prev[j-1]`, and the list is `prev[j:]`.
unfoldable pub fill : ℕ → ℕ → ℕ → Text → List ℕ → List ℕ
fill y left diagonal [] prev = []
fill y left diagonal (x ∷ ra) [] = []
fill y left diagonal (x ∷ ra) (above ∷ prev) =
    let here = min (min (above + 1) (left + 1)) (diagonal + cost x y) in
    here ∷ fill y here above ra prev

-- One row from the row before; `i` is `curr[0]`.
unfoldable pub next_row : ℕ → ℕ → Text → List ℕ → List ℕ
next_row i y ra [] = i ∷ []
next_row i y ra (first ∷ prev) = i ∷ fill y i first ra prev

-- The outer loop.
unfoldable pub rows : ℕ → Text → Text → List ℕ → List ℕ
rows i [] ra prev = prev
rows i (y ∷ rb) ra prev = rows (i + 1) rb ra (next_row i y ra prev)

-- `prev[i] = i`
unfoldable pub count_from : ℕ → Text → List ℕ
count_from i [] = i ∷ []
count_from i (x ∷ ra) = i ∷ count_from (i + 1) ra

-- `prev[len(ra)]`
unfoldable pub last_of : List ℕ → ℕ
last_of [] = 0
last_of (n ∷ []) = n
last_of (n ∷ m ∷ row) = last_of (m ∷ row)

abbrev pub distance_rows : Text → Text → ℕ
distance_rows ra rb = last_of (rows 1 rb ra (count_from 0 ra))

unfoldable pub edit_distance : Text → Text → ℕ
edit_distance a b =
    if text_eq a b
    then 0
    else if ltb (length b) (length a)
    then distance_rows b a
    else distance_rows a b
