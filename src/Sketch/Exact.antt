-- ===== src/Sketch/Exact.antt =====
-- The sketch interface of internal/sketch/sketch.go, and the exact set of internal/sketch/exact.go.
use mathlib.Core.List.{foldl}
use keyholders.Base.{
  ℕ, Bool, false, ◌||◌, if◌then◌else◌, List, [], ◌∷◌, ◌++◌, Text, text_eq, length,
}

-- `new` is the constructor that an engine is configured with.
pub record Sketch (S : Type 0) : Type 0 where
  pub new : S
  pub add : S → Text → S
  pub merge : S → S → S
  pub count : S → ℕ

-- A Go map from members to true.
abbrev pub ExactSet : Type 0
ExactSet = List Text

abbrev pub member : ExactSet → Text → Bool
member [] n = false
member (m ∷ s) n = text_eq m n || member s n

unfoldable pub add_member : ExactSet → Text → ExactSet
add_member s n = if member s n then s else s ++ n ∷ []

unfoldable pub merge_members : ExactSet → ExactSet → ExactSet
merge_members s other = foldl add_member s other

abbrev pub exact_set : Sketch ExactSet
exact_set = record { new = []; add = add_member; merge = merge_members; count = length }
