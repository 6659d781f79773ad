-- ===== src/Query/Batch.antt =====
-- The shape that the batched reads of internal/query share: chunks of sources, each read again in
-- two halves where its result may have been cut off. The database is a parameter: it answers a call
-- of algo.MSpaths with an error or with rows.
pub mod Parts
pub mod Exact
pub mod Returns
use keyholders.Base.{
  ℕ, zero, suc, ◌+◌, ◌/◌, Bool, leb, ltb, ◌&&◌, if◌then◌else◌, List, [], ◌∷◌, ◌++◌, Text, length,
  take, drop, filter, Read,
}
use keyholders.Query.Reach.{Error, Outcome, ok, err}
use keyholders.Query.Rows.{Row, VersionAttrs}

-- What differs between the statements: the quoted source values, the edge type and the direction.
-- The label of the sources follows from these two.
pub record Call : Type 0 where
  pub source_values : Text
  pub edge_type : Text
  pub direction : Text
  pub result_limit : ℕ

abbrev pub Database : Type 0
Database = Call → Read (List Row)

-- What a read leaves: the round trips that it counted, the nodes it saw, oldest first, and its
-- result. Counter and nodes are only written during a read, so they do not decide a result.
pub record Step (A : Type 0) : Type 0 where
  pub reads : ℕ
  pub seen : List VersionAttrs
  pub result : Outcome A

-- One kind of read: the names that it lets into a statement, its query, the error for a failed one,
-- the round trips that it counts for one query, and the loop over the rows.
pub record Reader (A : Type 0) : Type 0 where
  pub accepts : Text → Bool
  pub ask : List Text → Read (List Row)
  pub failure : ℕ → Text → Error
  pub trips : ℕ
  pub read_rows : List Row → Step (List A)

abbrev pub source_chunk : ℕ
source_chunk = 256

abbrev pub result_limit : ℕ
result_limit = 20000

module _ {A : Type 0} where
  abbrev pub prepend : List VersionAttrs → List A → Step (List A) → Step (List A)
  prepend seen items s = record {
    reads = s.reads;
    seen = seen ++ s.seen;
    result = elim s.result [ err e ↦ err e | ok more ↦ ok (items ++ more) ];
  }

  abbrev pub stopped : Error → Step (List A)
  stopped e = record { reads = 0; seen = []; result = err e }

  abbrev pub nothing : Step (List A)
  nothing = record { reads = 0; seen = []; result = ok [] }

  -- One result after another; an error of the first leaves the second undone.
  unfoldable pub followed_by : Step (List A) → Step (List A) → Step (List A)
  followed_by s t = elim s.result [
    | err e ↦ s
    | ok items ↦ record {
      reads = s.reads + t.reads;
      seen = s.seen ++ t.seen;
      result = elim t.result [ err e ↦ err e | ok more ↦ ok (items ++ more) ];
    }
  ]

  abbrev pub add_reads : ℕ → Step (List A) → Step (List A)
  add_reads n s = record { reads = n + s.reads; seen = s.seen; result = s.result }

module _ {A : Type 0} (r : Reader A) where
  -- One read, with what the two halves of its sources give in case its result may be cut off.
  unfoldable pub answer : List Text → Step (List A) → Step (List A)
  answer [] halves = nothing
  answer (u ∷ valid) halves = elim (r.ask (u ∷ valid)) [
    | Read.failed e ↦ add_reads r.trips (stopped (r.failure (length (u ∷ valid)) e))
    | Read.got rows ↦
        if leb result_limit (length rows) && ltb 1 (length (u ∷ valid))
        then add_reads r.trips halves
        else add_reads r.trips (r.read_rows rows)
  ]

  -- `depth` bounds how often the sources are split; their number is enough.
  unfoldable pub read_batch : ℕ → List Text → Step (List A)
  read_batch zero urns = answer (filter r.accepts urns) nothing
  read_batch (suc depth) urns =
      let valid = filter r.accepts urns in
      let left = read_batch depth (take (length valid / 2) valid) in
      let right = read_batch depth (drop (length valid / 2) valid) in
      answer valid (followed_by left right)

  -- The loop over the chunks; the first number bounds its rounds.
  unfoldable pub chunks_from : ℕ → List Text → Step (List A)
  chunks_from zero urns = nothing
  chunks_from (suc rounds) [] = nothing
  chunks_from (suc rounds) (u ∷ urns) =
      let chunk = take source_chunk (u ∷ urns) in
      let rest = chunks_from rounds (drop source_chunk (u ∷ urns)) in
      followed_by (read_batch (length chunk) chunk) rest

  unfoldable pub read_chunks : List Text → Step (List A)
  read_chunks urns = chunks_from (length urns) urns
