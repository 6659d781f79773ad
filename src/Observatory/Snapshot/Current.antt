-- ===== src/Observatory/Snapshot/Current.antt =====
-- What `currentVersion` of internal/observatory/snapshot.go returns.
use keyholders.Base.{
  ℕ, ◌≤◌, ◌≡◌, refl, sym, subst, ◌⊎◌, inl, inr, true, false, List, [], ◌∷◌, none, some, arith,
  Bool-cases, In, In-cons, In-cons_of, ltb→lt,
}
use keyholders.Observatory.Snapshot.{Release, eligible, newer, latest, current_version}

-- `b` is a newest eligible release of the list.
pub record Newest (releases : List Release) (t : ℕ) (b : Release) : Type 0 where
  pub member : In b releases
  pub fits : eligible b t ≡ true
  pub newest : (r : Release) → In r releases → eligible r t ≡ true → r.published_at ≤ b.published_at

-- An ineligible or older release behind the first one changes nothing.
Newest-skip :
    (best r b : Release) (releases : List Release) (t : ℕ)
    → eligible best t ≡ true
    → (eligible r t ≡ true → r.published_at ≤ best.published_at)
    → Newest (best ∷ releases) t b
    → Newest (best ∷ r ∷ releases) t b
Newest-skip best r b releases t fit older k = record {
  member = elim (In-cons k.member) [
    | inl same ↦ In-cons_of (r ∷ releases) (inl same)
    | inr n ↦ In.tail (In.tail n)
  ];
  fits = k.fits;
  newest = λ x m g. elim (In-cons m) [
    | inl same ↦ k.newest x (In-cons_of releases (inl same)) g
    | inr n ↦ elim (In-cons n) [
      | inl same ↦
          let old : x.published_at ≤ best.published_at =
            subst (λ y. y.published_at ≤ best.published_at) (sym same)
              (older (subst (λ y. eligible y t ≡ true) same g)) in
          omega (arith, old, k.newest best In.head fit)
      | inr o ↦ k.newest x (In.tail o) g
    ]
  ];
}

-- The loop once it holds an eligible release, which counts as the first of the list.
latest-Newest :
    (best : Release) (releases : List Release) (t : ℕ)
    → eligible best t ≡ true
    → (b : Release) × (latest (some best) releases t ≡ some b) × Newest (best ∷ releases) t b
unfolding latest
latest-Newest best [] t fit = (
  best,
  refl,
  record {
    member = In.head;
    fits = fit;
    newest = λ r m e. elim (In-cons m) [
      | inl same ↦ subst (λ x. x.published_at ≤ best.published_at) (sym same) (omega arith)
      | inr n ↦ elim n [ ]
    ];
  },
)
latest-Newest best (r ∷ releases) t fit = elim (Bool-cases (eligible r t)) [
  | inl g ↦ elim (Bool-cases (newer r (some best))) [
    | inl up ↦
        let (b, e, k) = latest-Newest r releases t g in
        (
          b,
          rw (g, up) e,
          record {
            member = In.tail k.member;
            fits = k.fits;
            newest = λ x m h. elim (In-cons m) [
              | inl same ↦
                  let later : best.published_at ≤ b.published_at =
                    omega
                      (arith, ltb→lt best.published_at r.published_at up, k.newest r In.head g) in
                  subst (λ y. y.published_at ≤ b.published_at) (sym same) later
              | inr n ↦ k.newest x n h
            ];
          },
        )
    | inr low ↦
        let (b, e, k) = latest-Newest best releases t fit in
        (b, rw (g, low) e, Newest-skip best r b releases t fit (λ h. ground arith) k)
  ]
  | inr unfit ↦
      let (b, e, k) = latest-Newest best releases t fit in
      (b, rw unfit e, Newest-skip best r b releases t fit (λ h. absurd (unequal h unfit)) k)
]
  where
    unequal : eligible r t ≡ true → eligible r t ≡ false → ⊥
    unequal h unfit = cc

-- Either no release is eligible and none is current, or the current one is a newest eligible one.
pub current_version-Newest :
    (releases : List Release) (t : ℕ)
    → ((current_version releases t ≡ none) × ((r : Release) → In r releases → eligible r t ≡ false))
      ⊎ ((b : Release) × (current_version releases t ≡ some b) × Newest releases t b)
unfolding current_version latest
current_version-Newest [] t = inl (refl, λ r m. elim m [ ])
current_version-Newest (r ∷ releases) t = elim (Bool-cases (eligible r t)) [
  | inl fit ↦ inr (rw fit (latest-Newest r releases t fit))
  | inr unfit ↦ elim (current_version-Newest releases t) [
    | inl (e, f) ↦ inl (
      rw unfit e,
      λ x m. elim (In-cons m) [
        | inl same ↦ subst (λ y. eligible y t ≡ false) (sym same) unfit
        | inr n ↦ f x n
      ],
    )
    | inr (b, e, k) ↦ inr (
      b,
      rw unfit e,
      record {
        member = In.tail k.member;
        fits = k.fits;
        newest = λ x m g. elim (In-cons m) [
          | inl same ↦ absurd (clash x same g unfit)
          | inr n ↦ k.newest x n g
        ];
      },
    )
  ]
]
  where
    clash : (x : Release) → x ≡ r → eligible x t ≡ true → eligible r t ≡ false → ⊥
    clash x same g unfit =
        let fit : eligible r t ≡ true = subst (λ y. eligible y t ≡ true) same g in cc
