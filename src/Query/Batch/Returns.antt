-- ===== src/Query/Batch/Returns.antt =====
-- The batched reads of internal/query return when the database answers every query.
use keyholders.Base.{
  ℕ, zero, suc, ◌/◌, ◌≡◌, refl, inl, inr, Bool-cases, ◌&&◌, leb, ltb, List, [], ◌∷◌, ◌++◌, Text,
  length, take, drop, filter, Read, arith,
}
use keyholders.Query.Reach.{ok}
use keyholders.Query.Rows.{Row}
use keyholders.Query.Batch.{
  Step, Reader, answer, read_batch, chunks_from, read_chunks, followed_by, nothing, result_limit,
  source_chunk,
}

module _ {A : Type 0} where
  abbrev pub Returns : Step (List A) → Type 0
  Returns s = (items : List A) × (s.result ≡ ok items)

  followed_by-Returns : (s t : Step (List A)) → Returns s → Returns t → Returns (followed_by s t)
  unfolding followed_by
  followed_by-Returns s t (xs, a) (ys, b) = (xs ++ ys, rw (a, b) refl)

module _ {A : Type 0} (r : Reader A)
    (answers : (valid : List Text)
      → (rows : List Row) × (r.ask valid ≡ Read.got rows) × Returns (r.read_rows rows)) where
  answer-Returns :
      (valid : List Text) (halves : Step (List A))
      → Returns halves
      → Returns (answer r valid halves)
  unfolding answer
  answer-Returns [] halves h = ([], refl)
  answer-Returns (u ∷ valid) halves h =
      let (rows, q, (items, k)) = answers (u ∷ valid) in
      elim (Bool-cases (leb result_limit (length rows) && ltb 1 (length (u ∷ valid)))) [
        | inl full ↦ (h.0, ground (arith, q, full, h.1))
        | inr fits ↦ (items, ground (arith, q, fits, k))
      ]

  batch-Returns : (depth : ℕ) (urns : List Text) → Returns (read_batch r depth urns)
  unfolding read_batch
  batch-Returns zero urns = answer-Returns (filter r.accepts urns) nothing ([], refl)
  batch-Returns (suc depth) urns =
      let valid = filter r.accepts urns in
      let half = length valid / 2 in
      answer-Returns valid
        (followed_by (read_batch r depth (take half valid)) (read_batch r depth (drop half valid)))
        (followed_by-Returns (read_batch r depth (take half valid))
          (read_batch r depth (drop half valid)) (batch-Returns depth (take half valid))
          (batch-Returns depth (drop half valid)))

  chunks-Returns : (rounds : ℕ) (urns : List Text) → Returns (chunks_from r rounds urns)
  unfolding chunks_from
  chunks-Returns zero urns = ([], refl)
  chunks-Returns (suc rounds) [] = ([], refl)
  chunks-Returns (suc rounds) (u ∷ urns) =
      let chunk = take source_chunk (u ∷ urns) in
      let rest = drop source_chunk (u ∷ urns) in
      followed_by-Returns (read_batch r (length chunk) chunk) (chunks_from r rounds rest)
        (batch-Returns (length chunk) chunk) (chunks-Returns rounds rest)

  pub read_chunks-Returns : (urns : List Text) → Returns (read_chunks r urns)
  unfolding read_chunks
  read_chunks-Returns urns = chunks-Returns (length urns) urns
