-- ===== src/Query/Batch/Exact.antt =====
-- The batched reads of internal/query are exact: splitting and chunks lose nothing and add nothing.
use keyholders.Base.{
  ℕ, zero, suc, ◌/◌, ◌≤◌, ◌<◌, ◌≡◌, refl, sym, subst, inl, inr, Bool-cases, true, false, ◌&&◌, leb,
  ltb, if◌then◌else◌, List, [], ◌∷◌, ◌++◌, Text, length, take, drop, take-append-drop,
  length-take-le, length-drop, filter, length-filter, In-filter, ltb→lt, In, Read, Read-cases,
  arith,
}
use keyholders.Query.Reach.{Outcome, ok}
use keyholders.Query.Rows.{Row}
use keyholders.Query.Batch.{
  Step, Reader, answer, read_batch, chunks_from, read_chunks, followed_by, nothing, result_limit,
  source_chunk,
}
use keyholders.Query.Batch.Parts.{
  Exact, accepted, Reads, Procedure, Exact-empty, Exact-append, Exact-filter, followed_by-ok,
}

module _ {A : Type 0} (source : A → Text) (Hop : Row → A → Type 0) (r : Reader A)
    (graph : Text → List A) (p : Procedure source Hop r graph)
    (rows-Reads : (rows : List Row) (es : List A)
      → (r.read_rows rows).result ≡ ok es
      → Reads Hop rows es) where
  abbrev IsExact : List Text → List A → Type 0
  IsExact = Exact source (accepted r.accepts graph)

  abbrev Accepted : List Text → Type 0
  Accepted valid = (u : Text) → In u valid → r.accepts u ≡ true

  read-Exact :
      (valid : List Text) (rows : List Row) (es : List A)
      → Accepted valid
      → r.ask valid ≡ Read.got rows
      → length rows < result_limit
      → (r.read_rows rows).result ≡ ok es
      → IsExact valid es
  read-Exact valid rows es good q l h =
      let (into, back) = rows-Reads rows es h in
      record {
        complete = λ u e m k.
            let (same, (row, n, hop)) =
              p.complete valid rows u e good q l m
                (subst (λ b. In e (if b then graph u else [])) (good u m) k) in
            (into row e n hop, same);
        sound = λ e m.
            let (row, n, hop) = back e m in
            let (i, k) = p.sound valid rows row e good q n hop in
            (i, subst (λ b. In e (if b then graph (source e) else [])) (sym (good (source e) i)) k);
      }

  none-Exact : {es : List A} {s : Outcome (List A)} → s ≡ ok [] → s ≡ ok es → IsExact [] es
  none-Exact {es} a b =
      let e : [] ≡ es = ground (arith, a, b) in
      subst (IsExact []) e (Exact-empty source (accepted r.accepts graph))

  answer-Exact :
      (valid : List Text) (halves : Step (List A)) (es : List A)
      → Accepted valid
      → (ltb 1 (length valid) ≡ true → (fs : List A) → halves.result ≡ ok fs → IsExact valid fs)
      → (answer r valid halves).result ≡ ok es
      → IsExact valid es
  unfolding answer
  answer-Exact [] halves es good split h = none-Exact refl h
  answer-Exact (u ∷ valid) halves es good split h = elim (Read-cases (r.ask (u ∷ valid))) [
    | inl (e, q) ↦ absurd (failed e q)
    | inr (rows, q) ↦
        elim (Bool-cases (leb result_limit (length rows) && ltb 1 (length (u ∷ valid)))) [
          | inl full ↦ split (ground (arith, full)) es (ground (arith, h, q, full))
          | inr fits ↦
              read-Exact (u ∷ valid) rows es good q (below valid rows q fits)
                (ground (arith, h, q, fits))
        ]
  ]
    where
      failed : (e : Text) → r.ask (u ∷ valid) ≡ Read.failed e → ⊥
      failed e q = ground (arith, h, q)

      below :
          (valid : List Text) (rows : List Row)
          → r.ask (u ∷ valid) ≡ Read.got rows
          → (leb result_limit (length rows) && ltb 1 (length (u ∷ valid))) ≡ false
          → length rows < result_limit
      below [] rows q f = p.narrow u rows q
      below (v ∷ valid) rows q f = ground (arith, f)

  filter-Accepted : (urns : List Text) → Accepted (filter r.accepts urns)
  filter-Accepted urns u m = (In-filter r.accepts u urns m).1

  batch-Exact :
      (depth : ℕ) (urns : List Text) (es : List A)
      → length urns ≤ depth
      → (read_batch r depth urns).result ≡ ok es
      → IsExact urns es
  unfolding read_batch
  batch-Exact zero urns es l h = Exact-filter source graph r.accepts (
      answer-Exact (filter r.accepts urns) nothing es (filter-Accepted urns)
        (λ more fs q. absurd (
          omega
            (arith, length-filter r.accepts urns, ltb→lt 1 (length (filter r.accepts urns)) more)))
        h)
  batch-Exact (suc depth) urns es l h =
      let valid = filter r.accepts urns in
      let half = length valid / 2 in
      let left = read_batch r depth (take half valid) in
      let right = read_batch r depth (drop half valid) in
      Exact-filter source graph r.accepts (
        answer-Exact valid (followed_by left right) es (filter-Accepted urns)
          (λ more fs q.
            let (xs, ys, a, b, e) = followed_by-ok left right fs q in
            let n = ltb→lt 1 (length valid) more in
            let m = length-filter r.accepts urns in
            let x =
              batch-Exact depth (take half valid) xs
                (omega (arith, length-take-le half valid, n, m, l)) a in
            let y =
              batch-Exact depth (drop half valid) ys
                (omega (arith, length-drop half valid, n, m, l)) b in
            subst (λ us. IsExact us fs) (take-append-drop half valid)
              (subst (λ f. IsExact (take half valid ++ drop half valid) f) (sym e)
                (Exact-append source (accepted r.accepts graph) x y)))
          h)

  chunks-Exact :
      (rounds : ℕ) (urns : List Text) (es : List A)
      → length urns ≤ rounds
      → (chunks_from r rounds urns).result ≡ ok es
      → IsExact urns es
  unfolding chunks_from
  chunks-Exact zero [] es l h = none-Exact refl h
  chunks-Exact zero (u ∷ urns) es l h = absurd (omega arith)
  chunks-Exact (suc rounds) [] es l h = none-Exact refl h
  chunks-Exact (suc rounds) (u ∷ urns) es l h =
      let chunk = take source_chunk (u ∷ urns) in
      let rest = drop source_chunk (u ∷ urns) in
      let (xs, ys, a, b, e) =
        followed_by-ok (read_batch r (length chunk) chunk) (chunks_from r rounds rest) es h in
      let x = batch-Exact (length chunk) chunk xs (omega arith) a in
      let y =
        chunks-Exact rounds rest ys (omega (arith, length-drop source_chunk (u ∷ urns), l)) b in
      subst (λ us. IsExact us es) (take-append-drop source_chunk (u ∷ urns))
        (subst (λ f. IsExact (chunk ++ rest) f) (sym e)
          (Exact-append source (accepted r.accepts graph) x y))

  -- Chunks that are read without an error hold exactly the items of the graph that belong to the
  -- sources that the pattern accepts.
  pub read_chunks-Exact :
      (urns : List Text) (es : List A) → (read_chunks r urns).result ≡ ok es → IsExact urns es
  unfolding read_chunks
  read_chunks-Exact urns es h = chunks-Exact (length urns) urns es (omega arith) h
