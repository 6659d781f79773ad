-- ===== src/Sketch/Engine/Chunks.antt =====
-- `splitEdges` of internal/sketch/sketch.go loses no edge and keeps their order.
use mathlib.Core.List.{append-nil}
use keyholders.Base.{
  ℕ, zero, suc, ◌+◌, ◌-◌, ◌/◌, ◌≤◌, ◌<◌, ◌≡◌, refl, ap, ◌∙◌, min, leb, inl, inr, List, [], ◌∷◌,
  ◌++◌, arith, Bool-cases, length, take, drop, concat, take-append-drop, length-drop,
}
use keyholders.Sketch.Engine.{Edge, chunks, split_edges}

concat-chunks :
    (rounds size : ℕ) (edges : List Edge)
    → 0 < size
    → length edges ≤ rounds
    → concat (chunks rounds size edges) ≡ edges
unfolding chunks
concat-chunks zero size [] h l = refl
concat-chunks zero size (e ∷ edges) h l = absurd (omega arith)
concat-chunks (suc rounds) size [] h l = refl
concat-chunks (suc rounds) size (e ∷ edges) h l =
    ap (λ rest. take size (e ∷ edges) ++ rest)
      (concat-chunks rounds size (drop size (e ∷ edges)) h
        (omega (arith, length-drop size (e ∷ edges))))
    ∙ take-append-drop size (e ∷ edges)

div-pos : (n k : ℕ) → 0 < k → k ≤ n → 0 < n / k
div-pos n k h l = grind arith

-- The chunks together are the edges.
pub concat-split_edges :
    (edges : List Edge) (workers : ℕ) → concat (split_edges edges workers) ≡ edges
unfolding split_edges
concat-split_edges edges workers = elim (Bool-cases (leb (min workers (length edges)) 1)) [
  | inl one ↦ rw one (append-nil edges)
  | inr more ↦
      let n = min workers (length edges) in
      rw more (
        concat-chunks (length edges) ((length edges + n - 1) / n) edges
          (div-pos (length edges + n - 1) n (ground arith) (ground arith)) (omega arith))
]
