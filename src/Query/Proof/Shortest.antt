-- ===== src/Query/Proof/Shortest.antt =====
-- The searches of internal/query/proof.go return a shortest chain of those that the database offers.
use mathlib.Core.List.{foldl}
use keyholders.Base.{
  ℕ, ◌≤◌, ◌≡◌, refl, sym, ap, subst, ◌∙◌, ◌⊎◌, inl, inr, Bool-cases, true, ltb, List, [], ◌∷◌, ◌++◌,
  Option, none, some, Text, length, filter, In, In-cons, Read, arith,
}
use keyholders.Query.Rows.{Props, Row}
use keyholders.Query.Urns.{npm_urn}
use keyholders.Query.Proof.{
  Chain, Paths, Outcome, coexistence_chain, better, consider, path_call, chunks_of, search_chunks,
  length_bound, proof_path,
}

-- The chains of the rows, in their order.
abbrev chain_of : Row → List Chain
chain_of (Row.path nodes rels) = elim (coexistence_chain nodes rels) [ none ↦ [] | some c ↦ c ∷ [] ]
chain_of row = []

abbrev pub chains : List Row → List Chain
chains [] = []
chains (row ∷ rows) = chain_of row ++ chains rows

-- The chains that the database offers for one target.
abbrev pub offered_in : (List Text → List Row) → List (List Text) → List Chain
offered_in rows_for [] = []
offered_in rows_for (chunk ∷ chunks) = chains (rows_for chunk) ++ offered_in rows_for chunks

abbrev pub offered : (List Text → List Row) → List Text → List Chain
offered rows_for sources =
    let valid = filter npm_urn sources in offered_in rows_for (chunks_of (length valid) valid)

-- A member with no shorter one beside it, or nothing where there is no member.
abbrev pub IsShortest : List Chain → Option Chain → Type 0
IsShortest cs none = (c : Chain) → In c cs → ⊥
IsShortest cs (some best) = In best cs × ((c : Chain) → In c cs → length best.hops ≤ length c.hops)

-- What was the best before, or a member, and no longer than either.
abbrev Improves : Option Chain → List Chain → Option Chain → Type 0
Improves none cs best = IsShortest cs best
Improves (some first) cs none = ⊥
Improves (some first) cs (some best) =
    ((best ≡ first) ⊎ In best cs)
    × (length best.hops ≤ length first.hops)
    × ((c : Chain) → In c cs → length best.hops ≤ length c.hops)

foldl-some :
    (first : Chain) (cs : List Chain)
    → (best : Chain) × (foldl better (some first) cs ≡ some best)
      × Improves (some first) cs (some best)
foldl-some first [] = (first, refl, (inl refl, omega arith, λ c m. elim m [ ]))
foldl-some first (d ∷ cs) = elim (Bool-cases (ltb (length d.hops) (length first.hops))) [
  | inl shorter ↦
      let (best, e, (from, l, all)) = foldl-some d cs in
      (
        best,
        rw shorter e,
        (
          elim from [
            | inl q ↦ inr (subst (λ x. In x (d ∷ cs)) (sym q) In.head)
            | inr m ↦ inr (In.tail m)
          ],
          ground (arith, l, shorter),
          λ c m. elim (In-cons m) [ inl q ↦ rw q l | inr n ↦ all c n ],
        ),
      )
  | inr longer ↦
      let (best, e, (from, l, all)) = foldl-some first cs in
      (
        best,
        rw longer e,
        (
          elim from [ inl q ↦ inl q | inr m ↦ inr (In.tail m) ],
          l,
          λ c m. elim (In-cons m) [ inl q ↦ rw q (ground (arith, l, longer)) | inr n ↦ all c n ],
        ),
      )
]

pub foldl-IsShortest : (cs : List Chain) → IsShortest cs (foldl better none cs)
foldl-IsShortest [] = λ c m. elim m [ ]
foldl-IsShortest (d ∷ cs) =
    let (best, e, (from, l, all)) = foldl-some d cs in
    rw e (
      elim from [ inl q ↦ subst (λ x. In x (d ∷ cs)) (sym q) In.head | inr m ↦ In.tail m ],
      λ c m. elim (In-cons m) [ inl q ↦ rw q l | inr n ↦ all c n ],
    )

foldl-append {ℓ κ} :
    {A : Type ℓ} {S : Type κ} (f : S → A → S) (s : S) (xs ys : List A)
    → foldl f s (xs ++ ys) ≡ foldl f (foldl f s xs) ys
foldl-append f s [] ys = refl
foldl-append f s (x ∷ xs) ys = foldl-append f (f s x) xs ys

consider_path :
    (best : Option Chain) (nodes rels : List Props) (rows : List Row) (o : Option Chain)
    → coexistence_chain nodes rels ≡ o
    → ((b : Option Chain) → consider b rows ≡ foldl better b (chains rows))
    → consider best (Row.path nodes rels ∷ rows)
      ≡ foldl better best (chains (Row.path nodes rels ∷ rows))
unfolding consider
consider_path best nodes rels rows none e rest = rw (e, consider, chain_of) (rest best)
consider_path best nodes rels rows (some c) e rest =
    rw (e, consider, chain_of) (rest (better best c))

consider-foldl :
    (best : Option Chain) (rows : List Row) → consider best rows ≡ foldl better best (chains rows)
unfolding consider
consider-foldl best [] = refl
consider-foldl best (Row.missing ∷ rows) = consider-foldl best rows
consider-foldl best (Row.not_path type ∷ rows) = consider-foldl best rows
consider-foldl best (Row.path nodes rels ∷ rows) =
    consider_path best nodes rels rows (coexistence_chain nodes rels) refl
      (λ b. consider-foldl b rows)

module _ (db : Paths) (target : Text) (max_len : ℕ) (rows_for : List Text → List Row)
    (answers : (chunk : List Text)
      → db (path_call target (length_bound max_len) chunk) ≡ Read.got (rows_for chunk)) where
  search_chunks-foldl :
      (best : Option Chain) (chunks : List (List Text))
      → search_chunks db target (length_bound max_len) best chunks
        ≡ Outcome.ok (foldl better best (offered_in rows_for chunks))
  unfolding search_chunks
  search_chunks-foldl best [] = refl
  search_chunks-foldl best (chunk ∷ chunks) =
      let e = search_chunks-foldl (consider best (rows_for chunk)) chunks in
      let f =
        foldl-append better best (chains (rows_for chunk)) (offered_in rows_for chunks)
        ∙ ap (λ b. foldl better b (offered_in rows_for chunks))
            (sym (consider-foldl best (rows_for chunk))) in
      rw (search_chunks, answers chunk) (e ∙ ap (λ (b : Option Chain). Outcome.ok b) (sym f))

  -- When the database answers the search for a version, the search returns a shortest one of the
  -- chains that the answers hold, over all chunks of the sources; it returns nothing exactly when
  -- they hold no chain.
  pub proof_path-IsShortest :
      (sources : List Text)
      → npm_urn target ≡ true
      → (best : Option Chain) × (proof_path db sources target max_len ≡ Outcome.ok best)
        × IsShortest (offered rows_for sources) best
  unfolding proof_path
  proof_path-IsShortest sources good =
      let valid = filter npm_urn sources in
      (
        foldl better none (offered rows_for sources),
        rw good (search_chunks-foldl none (chunks_of (length valid) valid)),
        foldl-IsShortest (offered rows_for sources),
      )
