-- ===== src/Query/Cut/Orphans.antt =====
-- What the removal analysis of internal/query/cut.go reports, in terms of the walks of the graph.
use keyholders.Base.{
  has_key, ℕ, zero, suc, ◌≤◌, ◌≡◌, refl, sym, ap, subst, ◌∙◌, ◌↔◌, inl, inr, Bool, true, false,
  List, [], ◌∷◌, arith, Bool-cases, List-cases, Text, Table, In, In-cons, In-sort_by, text_lt,
}
use keyholders.Query.Interval.{Interval, Set}
use keyholders.Query.Reach.{
  Edge, Entry, Options, ok, Expander, Result, has, edges_at, replay, set_defaults, reach,
}
use keyholders.Query.Reach.Walk.{Walk, start, step}
use keyholders.Query.Reach.Rounds.{Serves}
use keyholders.Query.Reach.Answer.{without_exact, coexistence-replay, reach_exact}
use keyholders.Query.Audit.{Keyholder, package_urn_of}
use keyholders.Query.Cut.{
  Cut, blocked_versions, reached_packages, lost_packages, beyond_packages, without, cut_of,
  cuts_from, cuts, wider,
}
use keyholders.Query.Cut.Keys.{key_held, held_key}
use keyholders.Query.Cut.Removal.{
  held_by, In-has, has-In, blocked_versions_lem, lost_packages_lem, beyond_packages_lem,
  reached_packages_sound, reached_packages_complete,
}
use keyholders.Semver.Version.{is_empty}

abbrev nothing : Text → Bool
nothing u = false

-- Some version of the package is reached at some instant by a walk around the blocked nodes, of at
-- most the depth bound.
abbrev pub Reachable : List Entry → Options → (Text → List Edge) → (Text → Bool) → Text → Type 0
Reachable sources options out blocked pkg =
    (v : Text) × (t : ℕ) × (n : ℕ) × (n ≤ (set_defaults options).max_depth)
    × (package_urn_of v ≡ pkg)
    × Walk sources (set_defaults options).within blocked out t n v

-- The package is reached, the account does not hold it, and no walk around the packages that the
-- account holds reaches it.
abbrev pub Isolated : List Entry → Options → (Text → List Edge) → Table Set → Text → Type 0
Isolated sources options out through p =
    (is_empty p ≡ false)
    × (has_key through p ≡ false)
    × Reachable sources options out nothing p
    × (Reachable sources options out (held_by through) p → ⊥)

module _ {sources : List Entry} {within : Interval} {out : Text → List Edge} {t : ℕ} where
  -- A walk around more nodes is a walk around fewer.
  Walk-weaken :
      (blocked fewer : Text → Bool) {n : ℕ} {v : Text}
      → ((u : Text) → blocked u ≡ false → fewer u ≡ false)
      → Walk sources within blocked out t n v
      → Walk sources within fewer out t n v
  Walk-weaken blocked fewer {v = v} f (start s m e b h k) = start s m e (f v b) h k
  Walk-weaken blocked fewer {v = v} f (step w e m to b h) =
      step (Walk-weaken blocked fewer f w) e m to (f v b) h

module _ (exp : Expander) (out : Text → List Edge) (sources : List Entry) (options : Options)
    (r : Result) (serves : Serves exp out) (found : reach exp sources options ≡ ok r) where
  abbrev Around : (Text → Bool) → ℕ → ℕ → Text → Type 0
  Around blocked = Walk sources (set_defaults options).within blocked out

  walked_key :
      (v : Text) (t n : ℕ)
      → n ≤ (set_defaults options).max_depth
      → Around nothing t n v
      → has_key r.coexistence v ≡ true
  walked_key v t n l w =
      held_key r.coexistence v t
        ((reach_exact exp out sources options r v t serves found).1 (n, l, w))

  unheld :
      (through : Table Set) (v : Text)
      → has_key r.coexistence v ≡ true
      → has (blocked_versions r.coexistence through) v ≡ false
      → held_by through v ≡ false
  unheld through v key b = ground (arith, blocked_versions_lem r.coexistence through v)

  -- On a walk, the nodes that the replay takes out are those of the packages that are held.
  Around-held :
      (through : Table Set) {t : ℕ} (n : ℕ) {v : Text}
      → n ≤ (set_defaults options).max_depth
      → Around (has (blocked_versions r.coexistence through)) t n v
      → Around (held_by through) t n v
  Around-held through {t} zero {v} l (start s m e b h k) =
      start s m e (unheld through v (walked_key v t zero l (start s m e refl h k)) b) h k
  Around-held through {t} (suc n) {v} l (step w e m to b h) =
      let whole = step (Walk-weaken _ nothing (λ u p. refl) w) e m to refl h in
      step (Around-held through n (omega arith) w) e m to
        (unheld through v (walked_key v t (suc n) l whole) b) h

  Around-blocked :
      (through : Table Set) {t n : ℕ} {v : Text}
      → Around (held_by through) t n v
      → Around (has (blocked_versions r.coexistence through)) t n v
  Around-blocked through =
      Walk-weaken (held_by through) (has (blocked_versions r.coexistence through))
        (λ u p. ground (arith, blocked_versions_lem r.coexistence through u))

  packages_Reachable :
      (blocked : Text → Bool) (p : Text)
      → (has (reached_packages (replay r.sources r.opts (edges_at r.edges) blocked).reached) p
          ≡ true)
        ↔ ((is_empty p ≡ false) × Reachable sources options out blocked p)
  packages_Reachable blocked p =
      let after = (replay r.sources r.opts (edges_at r.edges) blocked).reached in
      (
        λ h.
            let (u, key, e, some_name) = reached_packages_sound after p h in
            let (t, g) = key_held r.sources r.opts (edges_at r.edges) blocked u key in
            let (n, l, w) =
              (without_exact exp out sources options r blocked u t serves found).0 g in
            (some_name, (u, t, n, l, e, w)),
        λ (some_name, path).
            let (u, t, n, l, e, w) = path in
            let g =
              (without_exact exp out sources options r blocked u t serves found).1 (n, l, w) in
            subst (λ q. has (reached_packages after) q ≡ true) e
              (reached_packages_complete after u (held_key after u t g)
                (subst (λ q. is_empty q ≡ false) (sym e) some_name)),
      )

  reached_iff :
      (p : Text)
      → (has (reached_packages r.coexistence) p ≡ true)
        ↔ ((is_empty p ≡ false) × Reachable sources options out nothing p)
  reached_iff p =
      subst
        (λ m.
          (has (reached_packages m) p ≡ true)
          ↔ ((is_empty p ≡ false) × Reachable sources options out nothing p))
        (sym (coexistence-replay exp sources options r found)) (packages_Reachable nothing p)

  lost_iff :
      (k : Keyholder) (p : Text)
      → (has (reached_packages (without r (blocked_versions r.coexistence k.through))) p ≡ true)
        ↔ ((is_empty p ≡ false) × Reachable sources options out (held_by k.through) p)
  lost_iff k p =
      let blocked = blocked_versions r.coexistence k.through in
      let (to, of) = packages_Reachable (has blocked) p in
      (
        λ h.
            let (some_name, path) = to h in
            let (u, t, n, l, e, w) = path in
            (some_name, (u, t, n, l, e, Around-held k.through n l w)),
        λ (some_name, path).
            let (u, t, n, l, e, w) = path in
            of (some_name, (u, t, n, l, e, Around-blocked k.through w)),
      )

  orphaned_lem :
      (k : Keyholder) (p : Text)
      → let blocked = blocked_versions r.coexistence k.through in
        In p (cut_of r k blocked).orphaned ↔ (
          (has (reached_packages r.coexistence) p ≡ true)
          × (has (reached_packages (without r blocked)) p ≡ false)
          × (has_key k.through p ≡ false))
  unfolding cut_of
  orphaned_lem k p =
      let before = reached_packages r.coexistence in
      let after = reached_packages (without r (blocked_versions r.coexistence k.through)) in
      let lost = lost_packages before after in
      let orphaned = beyond_packages lost k.through in
      (
        λ m.
            let h = In-has p orphaned ((In-sort_by text_lt orphaned).0 m) in
            ground (arith, beyond_packages_lem lost k.through p, lost_packages_lem before after p),
        λ h.
            let all : has orphaned p ≡ true =
              ground
                (arith, beyond_packages_lem lost k.through p, lost_packages_lem before after p) in
            (In-sort_by text_lt orphaned).1 (has-In p orphaned all),
      )

  orphaned_iff :
      (k : Keyholder) (p : Text)
      → In p (cut_of r k (blocked_versions r.coexistence k.through)).orphaned
        ↔ Isolated sources options out k.through p
  orphaned_iff k p =
      let (to, of) = orphaned_lem k p in
      (
        λ m.
            let (before, gone, free) = to m in
            let (some_name, path) = (reached_iff p).0 before in
            (some_name, free, path, λ w. clash ((lost_iff k p).1 (some_name, w)) gone),
        λ (some_name, free, path, none_around).
            let after = without r (blocked_versions r.coexistence k.through) in
            of (
              (reached_iff p).1 (some_name, path),
              elim (Bool-cases (has (reached_packages after) p)) [
                | inl still ↦ absurd (none_around ((lost_iff k p).0 still).1)
                | inr gone ↦ gone
              ],
              free,
            ),
      )
    where
      clash : {b : Bool} → b ≡ true → b ≡ false → ⊥
      clash h k = cc

  cuts_from-In :
      (keyholders : List Keyholder) (c : Cut)
      → In c (cuts_from r keyholders)
      → (k : Keyholder) × In k keyholders
        × (c ≡ cut_of r k (blocked_versions r.coexistence k.through))
  unfolding cuts_from
  cuts_from-In [] c m = elim m [ ]
  cuts_from-In (k ∷ keyholders) c m = elim (List-cases (blocked_versions r.coexistence k.through)) [
    | inl e ↦
        let (k', n, same) = cuts_from-In keyholders c (rw (cuts_from, e) at m) in
        (k', In.tail n, same)
    | inr (b, blocked, e) ↦ elim (In-cons (rw (cuts_from, e) at m)) [
      | inl here ↦ (k, In.head, here ∙ ap (cut_of r k) (sym e))
      | inr later ↦ let (k', n, same) = cuts_from-In keyholders c later in (k', In.tail n, same)
    ]
  ]

  -- When the reads answer from one graph and `Reach` returned the result, each entry of `Cuts` is
  -- that of an account of the roster, and its orphaned packages are exactly those that the account
  -- does not hold, that some version of is reached, and that no walk of at most the depth bound
  -- reaches around the packages that the account holds.
  pub cuts_exact :
      (keyholders : List Keyholder) (c : Cut)
      → In c (cuts r keyholders)
      → (k : Keyholder) × In k keyholders
        × (c.handle ≡ k.handle)
        × ((p : Text) → In p c.orphaned ↔ Isolated sources options out k.through p)
  unfolding cuts
  cuts_exact keyholders c m =
      let (k, n, same) =
        cuts_from-In keyholders c ((In-sort_by wider (cuts_from r keyholders)).0 m) in
      (
        k,
        n,
        handle_of k c same,
        λ p.
            subst (λ x. In p x.orphaned ↔ Isolated sources options out k.through p) (sym same)
              (orphaned_iff k p),
      )
    where
      handle_of :
          (k : Keyholder) (c : Cut)
          → c ≡ cut_of r k (blocked_versions r.coexistence k.through)
          → c.handle ≡ k.handle
      handle_of k c same = ap (λ x. x.handle) same ∙ unfold cut_of in refl
