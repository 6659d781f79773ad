-- ===== src/Query/Roster/Listed.antt =====
-- The roster of internal/query/audit.go lists each account with what the loops found for it.
use keyholders.Base.{
  ℕ, ◌≡◌, ◌↔◌, refl, ap, sym, subst, ◌∙◌, inl, inr, Bool-cases, true, false, ◌&&◌, not, List, [],
  ◌∷◌, Option, none, some, Text, Table, text_eq, text_eq_iff, text_eq_refl, lookup, lookup-In,
  In-lookup, Unique, map, In, In-map, In-map_inv, In-sort_by, arith,
}
use keyholders.Query.Interval.{Set, contains, holds_at}
use keyholders.Query.Reach.{Edge, set_at}
use keyholders.Query.Reach.Offers.{held}
use keyholders.Query.Audit.{Keyholder, package_urn_of}
use keyholders.Query.Roster.{
  through_at, hold_edges, keyholder_of, wider_reach, roster_of, coexisting_packages,
}
use keyholders.Query.Roster.Merged.{version_held, held-coexisting_packages}
use keyholders.Query.Roster.Held.{
  grants, granted, holds_key, hold_edges-Unique, holds_key-hold_edges,
}
use keyholders.Semver.Version.{is_empty}

-- Some version of the package is reached at the instant.
abbrev pub Reached : Table Set → Text → ℕ → Type 0
Reached coexistence pkg t =
    (urn : Text) × (package_urn_of urn ≡ pkg) × (held coexistence urn t ≡ true)

-- Some edge gives the account rights over the package at the instant.
abbrev pub Granted : List Edge → Text → Text → ℕ → Type 0
Granted es h pkg t =
    (e : Edge) × In e es × (e.to ≡ h) × (e.from ≡ pkg) × (contains e.valid t ≡ true)

-- The roster lists the account with the package at the instant.
abbrev pub Listed : List Keyholder → Text → Text → ℕ → Type 0
Listed roster h pkg t =
    (k : Keyholder) × In k roster × (k.handle ≡ h) × (held k.through pkg t ≡ true)

version_held-Reached :
    (coexistence : Table Set) (pkg : Text) (t : ℕ)
    → version_held coexistence pkg t ≡ true
    → (is_empty pkg ≡ false)
      × ((urn : Text) × (set : Set) × In (urn, set) coexistence
          × (package_urn_of urn ≡ pkg)
          × (holds_at set t ≡ true))
version_held-Reached [] pkg t h = cc
version_held-Reached ((urn, set) ∷ coexistence) pkg t h =
    elim (Bool-cases (text_eq (package_urn_of urn) pkg && (not (is_empty pkg) && holds_at set t))) [
      | inl here ↦ (
        ground (arith, here),
        (
          urn,
          set,
          In.head,
          (text_eq_iff (package_urn_of urn) pkg).0 (ground (arith, here)),
          ground (arith, here),
        ),
      )
      | inr other ↦
          let (e, (u, s, m, p, k)) =
            version_held-Reached coexistence pkg t (ground (arith, h, other)) in
          (e, (u, s, In.tail m, p, k))
    ]

Reached-version_held :
    (urn : Text) (set : Set) (t : ℕ) (coexistence : Table Set)
    → is_empty (package_urn_of urn) ≡ false
    → In (urn, set) coexistence
    → holds_at set t ≡ true
    → version_held coexistence (package_urn_of urn) t ≡ true
Reached-version_held urn set t coexistence e In.head h =
    ground (arith, e, h, text_eq_refl (package_urn_of urn))
Reached-version_held urn set t ((u, s) ∷ coexistence) e (In.tail m) h =
    ground (arith, Reached-version_held urn set t coexistence e m h)

set_at-some :
    (m : Table Set) (u : Text) (o : Option Set)
    → lookup u m ≡ o
    → set_at m u ≡ elim o [ none ↦ [] | some s ↦ s ]
set_at-some m u o e = ap (λ (o : Option Set). elim o [ none ↦ [] | some s ↦ s ]) e

through_at-some :
    (m : Table (Table Set)) (h : Text) (o : Option (Table Set))
    → lookup h m ≡ o
    → through_at m h ≡ elim o [ none ↦ [] | some through ↦ through ]
through_at-some m h o e = ap (λ (o : Option (Table Set)). elim o [ none ↦ [] | some s ↦ s ]) e

some_held :
    (coexistence : Table Set) (urn : Text) (t : ℕ)
    → held coexistence urn t ≡ true
    → (set : Set) × In (urn, set) coexistence × (holds_at set t ≡ true)
some_held coexistence urn t h = found (lookup urn coexistence) refl h
  where
    found :
        (o : Option Set)
        → lookup urn coexistence ≡ o
        → held coexistence urn t ≡ true
        → (set : Set) × In (urn, set) coexistence × (holds_at set t ≡ true)
    found none e k =
        let h : holds_at [] t ≡ true =
          subst (λ s. holds_at s t ≡ true) (set_at-some coexistence urn none e) k in
        cc
    found (some set) e k = (
      set,
      lookup-In urn coexistence e,
      subst (λ s. holds_at s t ≡ true) (set_at-some coexistence urn (some set) e) k,
    )

none_held : (pkg : Text) (t : ℕ) → held [] pkg t ≡ true → ⊥
unfolding lookup
none_held pkg t h = cc

module _ (coexistence : Table Set) (u : Unique coexistence) where
  abbrev coexisting : Table Set
  coexisting = coexisting_packages coexistence

  held-Reached :
      (pkg : Text) (t : ℕ)
      → (held coexisting pkg t ≡ true) ↔ ((is_empty pkg ≡ false) × Reached coexistence pkg t)
  held-Reached pkg t = (
    λ h.
        let (e, (urn, set, m, p, k)) =
          version_held-Reached coexistence pkg t
            (sym (held-coexisting_packages coexistence pkg t) ∙ h) in
        (
          e,
          (
            urn,
            p,
            subst (λ s. holds_at s t ≡ true)
                (sym (set_at-some coexistence urn (some set) (In-lookup urn coexistence u m))) k,
          ),
        ),
    λ (e, (urn, p, k)).
        let (set, m, l) = some_held coexistence urn t k in
        held-coexisting_packages coexistence pkg t
        ∙ subst (λ q. version_held coexistence q t ≡ true) p
            (Reached-version_held urn set t coexistence (ap is_empty p ∙ e) m l),
  )

  granted-Granted :
      (es : List Edge) (h pkg : Text) (t : ℕ)
      → granted coexisting es h pkg t ≡ true
      → (held coexisting pkg t ≡ true) × Granted es h pkg t
  granted-Granted [] h pkg t g = cc
  granted-Granted (e ∷ es) h pkg t g =
      elim (Bool-cases (held coexisting pkg t && grants e h pkg t)) [
        | inl here ↦ (
          ground (arith, here),
          (
            e,
            In.head,
            (text_eq_iff e.to h).0 (ground (arith, here)),
            (text_eq_iff e.from pkg).0 (ground (arith, here)),
            ground (arith, here),
          ),
        )
        | inr other ↦
            let (r, (d, m, a, b, c)) = granted-Granted es h pkg t (ground (arith, g, other)) in
            (r, (d, In.tail m, a, b, c))
      ]

  Granted-granted :
      (e : Edge) (t : ℕ) (es : List Edge)
      → held coexisting e.from t ≡ true
      → In e es
      → contains e.valid t ≡ true
      → granted coexisting es e.to e.from t ≡ true
  Granted-granted e t es r In.head c = ground (arith, r, c, text_eq_refl e.to, text_eq_refl e.from)
  Granted-granted e t (d ∷ es) r (In.tail m) c = ground (arith, Granted-granted e t es r m c)

  -- The roster lists an account with a package at an instant exactly when some version of the
  -- package is reached then and some edge gives the account rights over the package then.
  pub roster_of-Listed :
      (es : List Edge) (h pkg : Text) (t : ℕ)
      → Listed (roster_of coexisting es).0 h pkg t
        ↔ ((is_empty pkg ≡ false) × Reached coexistence pkg t × Granted es h pkg t)
  unfolding roster_of
  roster_of-Listed es h pkg t = (
    λ (k, m, name, has_it).
        let s = hold_edges coexisting es in
        let ((handle, through), n, same) =
          In-map_inv (keyholder_of s.since) s.by_handle
            ((In-sort_by wider_reach (map (keyholder_of s.since) s.by_handle)).0 m) in
        let named = sym (ap (λ (x : Keyholder). x.handle) same) ∙ name in
        let found = In-lookup handle s.by_handle (hold_edges-Unique coexisting es) n in
        let key : holds_key s handle pkg t ≡ true =
          subst (λ x. held x pkg t ≡ true)
            (sym (through_at-some s.by_handle handle (some through) found))
            (sym (ap (λ (x : Keyholder). held x.through pkg t) same) ∙ has_it) in
        let (r, g) = granted-Granted es h pkg t (
          subst (λ x. granted coexisting es x pkg t ≡ true) named
            (sym (holds_key-hold_edges coexisting es handle pkg t) ∙ key)) in
        let (e, reached) = (held-Reached pkg t).0 r in (e, reached, g),
    λ (e, reached, (edge, m, a, b, c)).
        let s = hold_edges coexisting es in
        let r = (held-Reached pkg t).1 (e, reached) in
        let g = Granted-granted edge t es (subst (λ x. held coexisting x t ≡ true) (sym b) r) m c in
        let key = holds_key-hold_edges coexisting es edge.to edge.from t ∙ g in
        let (through, n, k) = entry s.by_handle edge.to edge.from key in
        (
          keyholder_of s.since (edge.to, through),
          (In-sort_by wider_reach (map (keyholder_of s.since) s.by_handle)).1
              (In-map (keyholder_of s.since) n),
          a,
          subst (λ x. held through x t ≡ true) b k,
        ),
  )
    where
      entry :
          (m : Table (Table Set)) (handle pkg : Text)
          → held (through_at m handle) pkg t ≡ true
          → (through : Table Set) × In (handle, through) m × (held through pkg t ≡ true)
      entry m handle pkg key = found (lookup handle m) refl
        where
          found :
              (o : Option (Table Set))
              → lookup handle m ≡ o
              → (through : Table Set) × In (handle, through) m × (held through pkg t ≡ true)
          found none q = absurd (
              none_held pkg t
                (subst (λ x. held x pkg t ≡ true) (through_at-some m handle none q) key))
          found (some through) q = (
            through,
            lookup-In handle m q,
            subst (λ x. held x pkg t ≡ true) (through_at-some m handle (some through) q) key,
          )
