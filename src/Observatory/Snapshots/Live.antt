-- ===== src/Observatory/Snapshots/Live.antt =====
-- Which edges internal/observatory/snapshot.go puts into which epoch.
use mathlib.Core.List.{foldl}
use keyholders.Base.{
  ℕ, ◌==◌, ==_iff, ◌≡◌, ◌↔◌, ◌⊎◌, refl, sym, subst, inl, inr, Bool-cases, false, if◌then◌else◌,
  List, [], ◌∷◌, ◌++◌, some, In, In-cons_of, In-append_left, In-append_right, In-snoc, Text, Read,
  Read-cases, arith,
}
use keyholders.Sketch.Engine.{Edge}
use keyholders.Observatory.Snapshot.{Release, current_version}
use keyholders.Observatory.Snapshots.{
  Source, Outcome, Epochs, edges_at, set_empty, empty_epochs, append_at, epochs_by_version, add_dep,
  add_deps, add_version, add_package, snapshots,
}
use keyholders.Observatory.Snapshots.Loops.{foldl_iff, each_iff}
use keyholders.Observatory.Snapshots.Versions.{epochs_by_version_iff}

edges_at-set_empty :
    (f : ℕ) (out : Epochs) (e : ℕ)
    → edges_at (set_empty f out) e ≡ (if f == e then [] else edges_at out e)
edges_at-set_empty f [] e = ground arith
edges_at-set_empty f ((g, edges) ∷ out) e = ground (arith, edges_at-set_empty f out e)

empty_at :
    (out : Epochs) (epochs : List ℕ) (e : ℕ)
    → edges_at out e ≡ []
    → edges_at (empty_epochs out epochs) e ≡ []
empty_at out [] e h = h
empty_at out (f ∷ epochs) e h =
    empty_at (set_empty f out) epochs e (ground (arith, edges_at-set_empty f out e, h))

edges_at-append_at :
    (e : ℕ) (edge : Edge) (out : Epochs) (f : ℕ)
    → edges_at (append_at e edge out) f
      ≡ (if e == f then edges_at out f ++ edge ∷ [] else edges_at out f)
unfolding append_at
edges_at-append_at e edge [] f = ground arith
edges_at-append_at e edge ((g, edges) ∷ out) f = ground (arith, edges_at-append_at e edge out f)

module _ (x : Edge) (f : ℕ) where
  -- The edge is one of the epoch's.
  abbrev Has : Epochs → Type 0
  Has out = In x (edges_at out f)

  append_iff :
      (e : ℕ) (edge : Edge) (out : Epochs)
      → Has (append_at e edge out) ↔ (Has out ⊎ ((e ≡ f) × (x ≡ edge)))
  append_iff e edge out = elim (Bool-cases (e == f)) [
    | inl same ↦
        rw (edges_at-append_at e edge out f, same)
          (
            λ m. elim (In-snoc (edges_at out f) m) [
              | inl o ↦ inl o
              | inr q ↦ inr ((==_iff e f).0 same, q)
            ],
            λ h. elim h [
              | inl o ↦ In-append_left (edge ∷ []) o
              | inr (q, r) ↦ In-append_right (edges_at out f) (In-cons_of [] (inl r))
            ],
          )
    | inr other ↦
        rw (edges_at-append_at e edge out f, other)
          (λ m. inl m, λ h. elim h [ inl o ↦ o | inr (q, r) ↦ absurd (clash q other) ])
  ]
    where
      clash : e ≡ f → (e == f) ≡ false → ⊥
      clash q other = ground (arith, q, other)

  -- An edge from the package to one of the dependencies.
  abbrev Made : Text → List Text → Type 0
  Made name deps = (dep : Text) × In dep deps × (x ≡ record { from = name; to = dep })

  add_deps_iff :
      (name : Text) (deps : List Text) (out : Epochs) (e : ℕ)
      → Has (add_deps name deps out e) ↔ (Has out ⊎ ((e ≡ f) × Made name deps))
  add_deps_iff name deps out e =
      let all =
        foldl_iff Has (λ (dep : Text). (e ≡ f) × (x ≡ record { from = name; to = dep }))
          (add_dep name e) (λ s dep. append_iff e (record { from = name; to = dep }) s) out deps in
      (
        λ h. elim (all.0 h) [ inl o ↦ inl o | inr (dep, m, (q, r)) ↦ inr (q, (dep, m, r)) ],
        λ h. elim h [ inl o ↦ all.1 (inl o) | inr (q, (dep, m, r)) ↦ all.1 (inr (dep, m, (q, r))) ],
      )

  -- What one version of a package adds.
  abbrev Version : Source → Text → Text × List ℕ → Type 0
  Version src name (version, at_epochs) =
      In f at_epochs
      × (deps : List Text) × (src.dependencies name version ≡ Read.got deps)
      × Made name deps

  add_version_iff :
      (src : Source) (name : Text) (out : Epochs) (v : Text × List ℕ) (next : Epochs)
      → add_version src name out v ≡ Outcome.ok next
      → Has next ↔ (Has out ⊎ Version src name v)
  unfolding add_version
  add_version_iff src name out (version, at_epochs) next h =
      elim (Read-cases (src.dependencies name version)) [
        | inl (e, q) ↦ absurd (stopped e q)
        | inr (deps, q) ↦
            let same : foldl (add_deps name deps) out at_epochs ≡ next = ground (arith, h, q) in
            let all =
              foldl_iff Has (λ (e : ℕ). (e ≡ f) × Made name deps) (add_deps name deps)
                (λ s e. add_deps_iff name deps s e) out at_epochs in
            (
              λ m. elim (all.0 (subst Has (sym same) m)) [
                | inl o ↦ inl o
                | inr (e, k, (r, made)) ↦ inr (subst (λ g. In g at_epochs) r k, deps, q, made)
              ],
              λ m. subst Has same (elim m [
                | inl o ↦ all.1 (inl o)
                | inr (k, seen, r, (dep, n, made)) ↦ all.1 (
                    inr
                      (f, k, (refl, (dep, subst (λ ds. In dep ds) (equal deps seen q r) n, made))))
              ]),
            )
      ]
    where
      stopped : (e : Text) → src.dependencies name version ≡ Read.failed e → ⊥
      stopped e q = ground (arith, h, q)

      equal :
          (deps seen : List Text)
          → src.dependencies name version ≡ Read.got deps
          → src.dependencies name version ≡ Read.got seen
          → seen ≡ deps
      equal deps seen q r = ground (arith, q, r)

  -- The edge is live: the source answers with a timeline, a current release of it, and that
  -- release's dependencies, one of which the edge leads to.
  abbrev pub Live : Source → Text → Type 0
  Live src name =
      (releases : List Release) × (src.timeline name ≡ Read.got releases)
      × (rel : Release) × (current_version releases f ≡ some rel)
      × (deps : List Text) × (src.dependencies name rel.version ≡ Read.got deps)
      × (dep : Text) × In dep deps
      × (x ≡ record { from = name; to = dep })

  add_package_iff :
      (src : Source) (epochs : List ℕ) (out : Epochs) (name : Text) (next : Epochs)
      → add_package src epochs out name ≡ Outcome.ok next
      → Has next ↔ (Has out ⊎ (In f epochs × Live src name))
  unfolding add_package
  add_package_iff src epochs out name next h = elim (Read-cases (src.timeline name)) [
    | inl (e, q) ↦ absurd (stopped e q)
    | inr (releases, q) ↦
        let all =
          each_iff Has (Version src name) (add_version src name)
            (λ s v n k. add_version_iff src name s v n k) out (epochs_by_version releases epochs)
            next (ground (arith, h, q)) in
        (
          λ m. elim (all.0 m) [
            | inl o ↦ inl o
            | inr ((v, es), n, p) ↦ inr (came releases q v es n p)
          ],
          λ s. elim s [
            | inl o ↦ all.1 (inl o)
            | inr (m, (seen, r, rel, c, deps, d, dep, k, made)) ↦
                let (es, i, j) = (epochs_by_version_iff releases epochs rel.version f).1 (
                  m,
                  (
                    rel,
                    subst (λ rs. current_version rs f ≡ some rel) (equal releases seen q r) c,
                    refl,
                  ),
                ) in
                all.1 (inr ((rel.version, es), i, (j, deps, d, (dep, k, made))))
          ],
        )
  ]
    where
      stopped : (e : Text) → src.timeline name ≡ Read.failed e → ⊥
      stopped e q = ground (arith, h, q)

      equal :
          (releases seen : List Release)
          → src.timeline name ≡ Read.got releases
          → src.timeline name ≡ Read.got seen
          → seen ≡ releases
      equal releases seen q r = ground (arith, q, r)

      came :
          (releases : List Release)
          → src.timeline name ≡ Read.got releases
          → (v : Text) (es : List ℕ) → In (v, es) (epochs_by_version releases epochs)
          → Version src name (v, es)
          → In f epochs × Live src name
      came releases q v es n (k, deps, d, (dep, m, made)) =
          let (e, (rel, c, w)) = (epochs_by_version_iff releases epochs v f).0 (es, n, k) in
          (
            e,
            (
              releases,
              q,
              rel,
              c,
              deps,
              subst (λ u. src.dependencies name u ≡ Read.got deps) w d,
              dep,
              m,
              made,
            ),
          )

-- Where snapshots are returned, the edges of an epoch are exactly these, for an epoch that was asked
-- for: an edge from each of the names to each dependency of the release of it that is current at the
-- epoch, as the source answers.
pub snapshots_iff :
    (src : Source) (names : List Text) (epochs : List ℕ) (out : Epochs)
    → snapshots src names epochs ≡ Outcome.ok out
    → (x : Edge) (f : ℕ)
    → In x (edges_at out f) ↔ (In f epochs × ((name : Text) × In name names × Live x f src name))
unfolding snapshots
snapshots_iff src names epochs out h x f =
    let all =
      each_iff (Has x f) (λ (name : Text). In f epochs × Live x f src name) (add_package src epochs)
        (λ s name n k. add_package_iff x f src epochs s name n k) (empty_epochs [] epochs) names out
        h in
    (
      λ m. elim (all.0 m) [
        | inl o ↦ elim (subst (λ es. In x es) (empty_at [] epochs f refl) o) [ ]
        | inr (name, n, (e, l)) ↦ (e, (name, n, l))
      ],
      λ (e, (name, n, l)). all.1 (inr (name, n, (e, l))),
    )
