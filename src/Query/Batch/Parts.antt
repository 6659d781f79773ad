-- ===== src/Query/Batch/Parts.antt =====
-- What the batched reads of internal/query are exact for, and how exact parts are put together.
use keyholders.Base.{
  ◌<◌, ◌≡◌, sym, subst, inl, inr, Bool-cases, Bool, true, if◌then◌else◌, List, [], ◌∷◌, ◌++◌, Text,
  length, filter, In-filter, filter-In, In, In-append, In-append_left, In-append_right, In-cons,
  In-cons_of, Read, arith,
}
use keyholders.Query.Reach.{Error, ok, err, Outcome-cases}
use keyholders.Query.Rows.{Row, VersionAttrs}
use keyholders.Query.Batch.{Step, Reader, prepend, followed_by, result_limit}

module _ {A : Type 0} (source : A → Text) where
  -- The items are exactly those of the sources.
  pub record Exact (graph : Text → List A) (urns : List Text) (items : List A) : Type 0 where
    pub complete : (u : Text) (a : A) → In u urns → In a (graph u) → In a items × (source a ≡ u)
    pub sound : (a : A) → In a items → In (source a) urns × In a (graph (source a))

module _ {A : Type 0} where
  -- What the pattern rejects has no items.
  abbrev pub accepted : (Text → Bool) → (Text → List A) → Text → List A
  accepted pattern graph u = if pattern u then graph u else []

  -- The items are those of the rows that have one.
  abbrev pub Reads : (Row → A → Type 0) → List Row → List A → Type 0
  Reads Hop rows items =
      ((r : Row) (a : A) → In r rows → Hop r a → In a items)
      × ((a : A) → In a items → (r : Row) × In r rows × Hop r a)

  -- What the procedure behind the database does, for one graph: its rows are hops of the graph out
  -- of sources that pass the pattern; a result below the limit has all of them; and no single
  -- source reaches the limit.
  pub record Procedure (source : A → Text) (Hop : Row → A → Type 0) (r : Reader A)
      (graph : Text → List A) : Type 0 where
    pub sound :
        (valid : List Text) (rows : List Row) (row : Row) (a : A)
        → ((u : Text) → In u valid → r.accepts u ≡ true)
        → r.ask valid ≡ Read.got rows
        → In row rows
        → Hop row a
        → In (source a) valid × In a (graph (source a))
    pub complete :
        (valid : List Text) (rows : List Row) (u : Text) (a : A)
        → ((u : Text) → In u valid → r.accepts u ≡ true)
        → r.ask valid ≡ Read.got rows
        → length rows < result_limit
        → In u valid
        → In a (graph u)
        → (source a ≡ u) × ((row : Row) × In row rows × Hop row a)
    pub narrow :
        (u : Text) (rows : List Row) → r.ask (u ∷ []) ≡ Read.got rows → length rows < result_limit

module _ {A : Type 0} (source : A → Text) (graph : Text → List A) where
  pub Exact-empty : Exact source graph [] []
  Exact-empty = record { complete = λ u e m k. elim m [ ]; sound = λ e m. elim m [ ] }

  pub Exact-append :
      {xs ys : List Text} {es fs : List A}
      → Exact source graph xs es
      → Exact source graph ys fs
      → Exact source graph (xs ++ ys) (es ++ fs)
  Exact-append {xs} {ys} {es} {fs} a b = record {
    complete = λ u e m k. elim (In-append xs ys m) [
      | inl l ↦ let (i, q) = a.complete u e l k in (In-append_left fs i, q)
      | inr r ↦ let (i, q) = b.complete u e r k in (In-append_right es i, q)
    ];
    sound = λ e m. elim (In-append es fs m) [
      | inl l ↦ let (i, q) = a.sound e l in (In-append_left ys i, q)
      | inr r ↦ let (i, q) = b.sound e r in (In-append_right xs i, q)
    ];
  }

  pub Exact-filter :
      (pattern : Text → Bool) {urns : List Text} {es : List A}
      → Exact source (accepted pattern graph) (filter pattern urns) es
      → Exact source (accepted pattern graph) urns es
  Exact-filter pattern {urns} {es} x = record {
    complete = λ u e m k. elim (Bool-cases (pattern u)) [
      | inl good ↦ x.complete u e (filter-In pattern u urns m good) k
      | inr bad ↦ elim (subst (λ b. In e (if b then graph u else [])) bad k) [ ]
    ];
    sound = λ e m. let (i, q) = x.sound e m in ((In-filter pattern (source e) urns i).0, q);
  }

module _ {A : Type 0} where
  pub followed_by-ok :
      (s t : Step (List A)) (es : List A)
      → (followed_by s t).result ≡ ok es
      → (xs : List A) × (ys : List A) × (s.result ≡ ok xs) × (t.result ≡ ok ys) × (es ≡ xs ++ ys)
  unfolding followed_by
  followed_by-ok s t es h = elim (Outcome-cases s.result) [
    | inl (e, q) ↦ absurd (stopped_first e q)
    | inr (xs, q) ↦ elim (Outcome-cases t.result) [
      | inl (e, r) ↦ absurd (stopped_second xs e q r)
      | inr (ys, r) ↦ (xs, ys, q, r, ground (arith, h, q, r))
    ]
  ]
    where
      stopped_first : (e : Error) → s.result ≡ err e → ⊥
      stopped_first e q = ground (arith, h, q)

      stopped_second : (xs : List A) (e : Error) → s.result ≡ ok xs → t.result ≡ err e → ⊥
      stopped_second xs e q r = ground (arith, h, q, r)

  pub prepend-ok :
      (seen : List VersionAttrs) (items : List A) (s : Step (List A)) (es : List A)
      → (prepend seen items s).result ≡ ok es
      → (fs : List A) × (s.result ≡ ok fs) × (items ++ fs ≡ es)
  prepend-ok seen items s es h = elim (Outcome-cases s.result) [
    | inl (e, q) ↦ absurd (stopped e q)
    | inr (fs, q) ↦ (fs, q, ground (arith, h, q))
  ]
    where
      stopped : (e : Error) → s.result ≡ err e → ⊥
      stopped e q = ground (arith, h, q)

module _ {A : Type 0} (Hop : Row → A → Type 0) where
  pub skipped :
      (r : Row) (rows : List Row) (es : List A)
      → ((e : A) → Hop r e → ⊥)
      → Reads Hop rows es
      → Reads Hop (r ∷ rows) es
  skipped r rows es none_here (a, b) = (
    λ s e m k. elim (In-cons m) [
      | inl q ↦ absurd (none_here e (subst (λ s. Hop s e) q k))
      | inr n ↦ a s e n k
    ],
    λ e m. let (s, n, k) = b e m in (s, In.tail n, k),
  )

  pub hopped :
      (r : Row) (a : A) (rows : List Row) (fs : List A)
      → Hop r a
      → ((e : A) → Hop r e → e ≡ a)
      → Reads Hop rows fs
      → Reads Hop (r ∷ rows) (a ∷ fs)
  hopped r a rows fs here same (into, back) = (
    λ s e m k. elim (In-cons m) [
      | inl q ↦ In-cons_of fs (inl (same e (subst (λ s. Hop s e) q k)))
      | inr n ↦ In.tail (into s e n k)
    ],
    λ e m. elim (In-cons m) [
      | inl q ↦ (r, In.head, subst (λ e. Hop r e) (sym q) here)
      | inr n ↦ let (s, l, k) = back e n in (s, In.tail l, k)
    ],
  )
