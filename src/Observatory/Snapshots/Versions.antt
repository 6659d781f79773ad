-- ===== src/Observatory/Snapshots/Versions.antt =====
-- The epochs at which internal/observatory/snapshot.go finds each version of a package current.
use keyholders.Base.{
  ℕ, ◌≡◌, ◌↔◌, ◌⊎◌, refl, sym, ap, subst, ◌∙◌, inl, inr, Bool-cases, Option-cases, List, [], ◌∷◌,
  ◌++◌, none, some, In, In-cons, In-cons_of, In-append_left, In-append_right, In-singleton, In-snoc,
  Text, Table, text_eq, text_eq_iff, arith,
}
use keyholders.Observatory.Snapshot.{Release, current_version}
use keyholders.Observatory.Snapshots.{add_epoch, file_epoch, epochs_by_version}
use keyholders.Observatory.Snapshots.Loops.{foldl_iff}

-- The version has the epoch.
abbrev pub Filed : Text → ℕ → Table (List ℕ) → Type 0
Filed v f by_version = (es : List ℕ) × In (v, es) by_version × In f es

add_epoch_iff :
    (version : Text) (e : ℕ) (v : Text) (f : ℕ) (m : Table (List ℕ))
    → Filed v f (add_epoch version e m) ↔ (Filed v f m ⊎ ((v ≡ version) × (f ≡ e)))
unfolding add_epoch
add_epoch_iff version e v f [] = (
  λ (es, m, k).
      let q = In-singleton m in
      inr (ap (λ p. p.0) q, In-singleton (subst (λ es. In f es) (ap (λ p. p.1) q) k)),
  λ h. elim h [
    | inl (es, m, k) ↦ elim m [ ]
    | inr (q, r) ↦ (e ∷ [], In-cons_of [] (inl (ap (λ w. (w, e ∷ [])) q)), In-cons_of [] (inl r))
  ],
)
add_epoch_iff version e v f ((w, epochs) ∷ m) = elim (Bool-cases (text_eq w version)) [
  | inl here ↦ rw here (
    λ (es, n, k). elim (In-cons n) [
      | inr t ↦ inl (es, In.tail t, k)
      | inl q ↦ elim (In-snoc epochs (subst (λ es. In f es) (ap (λ p. p.1) q) k)) [
        | inl o ↦ inl (epochs, In-cons_of m (inl (ap (λ u. (u, epochs)) (ap (λ p. p.0) q))), o)
        | inr r ↦ inr (ap (λ p. p.0) q ∙ (text_eq_iff w version).0 here, r)
      ]
    ],
    λ h. elim h [
      | inl (es, n, k) ↦ elim (In-cons n) [
        | inr t ↦ (es, In.tail t, k)
        | inl q ↦ (
          epochs ++ e ∷ [],
          In-cons_of m (inl (ap (λ u. (u, epochs ++ e ∷ [])) (ap (λ p. p.0) q))),
          In-append_left (e ∷ []) (subst (λ es. In f es) (ap (λ p. p.1) q) k),
        )
      ]
      | inr (q, r) ↦ (
        epochs ++ e ∷ [],
        In-cons_of m
            (inl (ap (λ u. (u, epochs ++ e ∷ [])) (q ∙ sym ((text_eq_iff w version).0 here)))),
        In-append_right epochs (In-cons_of [] (inl r)),
      )
    ],
  )
  | inr other ↦
      let rest = add_epoch_iff version e v f m in
      rw other (
        λ (es, n, k). elim (In-cons n) [
          | inl q ↦ inl (es, In-cons_of m (inl q), k)
          | inr t ↦ elim (rest.0 (es, t, k)) [
            | inl (ds, d, j) ↦ inl (ds, In.tail d, j)
            | inr p ↦ inr p
          ]
        ],
        λ h. elim h [
          | inl (es, n, k) ↦ elim (In-cons n) [
            | inl q ↦ (es, In-cons_of (add_epoch version e m) (inl q), k)
            | inr t ↦ let (ds, d, j) = rest.1 (inl (es, t, k)) in (ds, In.tail d, j)
          ]
          | inr p ↦ let (ds, d, j) = rest.1 (inr p) in (ds, In.tail d, j)
        ],
      )
]

-- The version is current at the epoch.
abbrev pub Current : List Release → Text → ℕ → Type 0
Current releases v e = (rel : Release) × (current_version releases e ≡ some rel) × (v ≡ rel.version)

file_epoch_iff :
    (releases : List Release) (v : Text) (f : ℕ) (m : Table (List ℕ)) (e : ℕ)
    → Filed v f (file_epoch releases m e) ↔ (Filed v f m ⊎ ((f ≡ e) × Current releases v e))
unfolding file_epoch
file_epoch_iff releases v f m e = elim (Option-cases (current_version releases e)) [
  | inl nothing ↦
      let same : file_epoch releases m e ≡ m = ground (arith, nothing) in
      rw same (
        λ h. inl h,
        λ h. elim h [ inl o ↦ o | inr (q, (rel, r, w)) ↦ absurd (missing rel nothing r) ],
      )
  | inr (rel, found) ↦
      let one = add_epoch_iff rel.version e v f m in
      let same : file_epoch releases m e ≡ add_epoch rel.version e m = ground (arith, found) in
      rw same (
        λ h. elim (one.0 h) [ inl o ↦ inl o | inr (q, r) ↦ inr (r, (rel, found, q)) ],
        λ h. elim h [
          | inl o ↦ one.1 (inl o)
          | inr (q, (other, r, w)) ↦
              one.1 (inr (w ∙ ap (λ (x : Release). x.version) (equal rel other found r), q))
        ],
      )
]
  where
    missing :
        (rel : Release)
        → current_version releases e ≡ none
        → current_version releases e ≡ some rel
        → ⊥
    missing rel p q = ground (arith, p, q)

    equal :
        (rel other : Release)
        → current_version releases e ≡ some rel
        → current_version releases e ≡ some other
        → other ≡ rel
    equal rel other p q = ground (arith, p, q)

-- The epochs of a version are those asked for at which it is current.
pub epochs_by_version_iff :
    (releases : List Release) (epochs : List ℕ) (v : Text) (f : ℕ)
    → Filed v f (epochs_by_version releases epochs) ↔ (In f epochs × Current releases v f)
unfolding epochs_by_version
epochs_by_version_iff releases epochs v f =
    let all =
      foldl_iff (Filed v f) (λ (e : ℕ). (f ≡ e) × Current releases v e) (file_epoch releases)
        (λ s e. file_epoch_iff releases v f s e) [] epochs in
    (
      λ h. elim (all.0 h) [
        | inl (es, m, k) ↦ elim m [ ]
        | inr (e, m, (q, c)) ↦
            (subst (λ g. In g epochs) (sym q) m, subst (Current releases v) (sym q) c)
      ],
      λ (m, c). all.1 (inr (f, m, (refl, c))),
    )
