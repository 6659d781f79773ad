-- ===== src/Query/Roster/Answer.antt =====
-- The accounts that internal/query/audit.go finds, from the lockfile's versions to the roster, in
-- terms of the graph.
use keyholders.Base.{
  ℕ, ◌≤◌, ◌≡◌, ◌↔◌, refl, ap, sym, subst, ◌∙◌, inl, inr, Bool-cases, true, false, if◌then◌else◌,
  List, [], ◌∷◌, Text, bytes, text_lt, has_prefix, sort_by, In, In-sort_by, Read, Unique,
}
use keyholders.Query.Interval.{contains}
use keyholders.Query.Reach.{Edge, Entry, Options, Result, ok, has, set_defaults, reach, edges_at}
use keyholders.Query.Reach.Walk.{Walk}
use keyholders.Query.Reach.Answer.{reach_exact, coexistence-union, coexistence-replay}
use keyholders.Query.Cut.Keys.{replay-Unique}
use keyholders.Query.Cut.Removal.{has-In}
use keyholders.Query.Rows.{Row}
use keyholders.Query.Urns.{npm_urn, npm_package_urn}
use keyholders.Query.Batch.{Database, read_chunks}
use keyholders.Query.Batch.Parts.{Procedure, accepted, Exact}
use keyholders.Query.Batch.Exact.{read_chunks-Exact}
use keyholders.Query.Batch.Returns.{read_chunks-Returns}
use keyholders.Query.Expander.{GraphExpander, expansion, expander, call_for}
use keyholders.Query.Expander.Serves.{Hop, source_of, expander-Serves}
use keyholders.Query.Audit.{Keyholder, package_urn_of}
use keyholders.Query.Roster.{
  Roster, maintains, union_packages, roster_of, coexisting_packages, find_keyholders,
}
use keyholders.Query.Roster.Listed.{Reached, Granted, Listed, roster_of-Listed}
use keyholders.Semver.Version.{is_empty}
use keyholders.Query.Roster.Reads.{
  Maintains, read_maintains-Reads, read_maintains-Returns, union_packages-has,
}

-- At the instant a path of at most the depth bound leads from one of the versions to a version of
-- the package, with everything on it valid then and every step out of a name that the pattern
-- accepts.
abbrev pub Exposed : List Entry → Options → (Text → List Edge) → Text → ℕ → Type 0
Exposed sources options graph pkg t =
    (urn : Text) × (n : ℕ) × (package_urn_of urn ≡ pkg)
    × (n ≤ (set_defaults options).max_depth)
    × Walk sources (set_defaults options).within (λ _. false) (accepted npm_urn graph) t n urn

-- The pattern accepts the package's name, and at the instant the account may publish it.
abbrev pub MayPublish : (Text → List Edge) → Text → Text → ℕ → Type 0
MayPublish maintainers h pkg t =
    (npm_package_urn pkg ≡ true)
    × ((e : Edge) × In e (maintainers pkg) × (e.to ≡ h) × (contains e.valid t ≡ true))

find_keyholders-ok :
    (db : Database) (r : Result) (es : List Edge)
    → (read_chunks (maintains db) (sort_by text_lt (union_packages r.union))).result ≡ ok es
    → find_keyholders db r ≡ ok (roster_of (coexisting_packages r.coexistence) es)
unfolding find_keyholders
find_keyholders-ok db r es h = rw (find_keyholders, h) refl

package_named : (pkg : Text) → npm_package_urn pkg ≡ true → is_empty pkg ≡ false
unfolding npm_package_urn has_prefix
package_named [] h = cc
package_named (c ∷ pkg) h = refl

module _ (g : GraphExpander) (db : Database) (graph maintainers : Text → List Edge)
    (versions : Procedure source_of Hop (expansion g) graph)
    (rights : Procedure source_of Maintains (maintains db) maintainers)
    (answers : (valid : List Text)
      → (rows : List Row) × (db (call_for (bytes "MAINTAINS") (bytes "incoming") valid)
          ≡ Read.got rows))
    (sources : List Entry) (options : Options) (r : Result)
    (found : reach (expander g) sources options ≡ ok r) where
  coexistence-Unique : Unique r.coexistence
  coexistence-Unique =
      subst Unique (sym (coexistence-replay (expander g) sources options r found))
        (replay-Unique r.sources r.opts (edges_at r.edges) (λ _. false))

  Reached-Exposed :
      (pkg : Text) (t : ℕ) → Reached r.coexistence pkg t ↔ Exposed sources options graph pkg t
  Reached-Exposed pkg t =
      let exact = λ (urn : Text).
        reach_exact (expander g) (accepted npm_urn graph) sources options r urn t
          (expander-Serves g graph versions) found in
      (
        λ (urn, p, h). let (n, l, w) = (exact urn).0 h in (urn, n, p, l, w),
        λ (urn, n, p, l, w). (urn, p, (exact urn).1 (n, l, w)),
      )

  -- A reached package is among those that the maintainers are read for.
  asked :
      (pkg : Text) (t : ℕ)
      → is_empty pkg ≡ false
      → Reached r.coexistence pkg t
      → In pkg (sort_by text_lt (union_packages r.union))
  asked pkg t e (urn, p, h) =
      let in_union =
        coexistence-union (expander g) (accepted npm_urn graph) sources options r urn t
          (expander-Serves g graph versions) found h in
      let listed = union_packages-has r.union urn in_union (ap is_empty p ∙ e) in
      (In-sort_by text_lt (union_packages r.union)).1 (
        has-In pkg (union_packages r.union)
          (subst (λ q. has (union_packages r.union) q ≡ true) p listed))

  module _ (es : List Edge)
      (exact : Exact source_of
        (accepted npm_package_urn maintainers)
        (sort_by text_lt (union_packages r.union))
        es) where
    Granted-MayPublish :
        (h pkg : Text) (t : ℕ)
        → is_empty pkg ≡ false
        → Reached r.coexistence pkg t
        → Granted es h pkg t ↔ MayPublish maintainers h pkg t
    Granted-MayPublish h pkg t e reached = (
      λ (edge, m, a, b, c).
          let k =
            subst (λ x. In edge (accepted npm_package_urn maintainers x)) b
              ((exact.sound edge m).1) in
          elim (Bool-cases (npm_package_urn pkg)) [
            | inl good ↦ (
              good,
              (edge, subst (λ b. In edge (if b then maintainers pkg else [])) good k, a, c),
            )
            | inr bad ↦ elim (subst (λ b. In edge (if b then maintainers pkg else [])) bad k) [ ]
          ],
      λ (good, (edge, k, a, c)).
          let (m, b) =
            exact.complete pkg edge (asked pkg t e reached)
              (subst (λ b. In edge (if b then maintainers pkg else [])) (sym good) k) in
          (edge, m, a, b, c),
    )

    listed :
        (h pkg : Text) (t : ℕ)
        → Listed (roster_of (coexisting_packages r.coexistence) es).0 h pkg t
          ↔ (Exposed sources options graph pkg t × MayPublish maintainers h pkg t)
    listed h pkg t =
        let spec = roster_of-Listed r.coexistence coexistence-Unique es h pkg t in
        (
          λ l.
              let (e, reached, granted) = spec.0 l in
              ((Reached-Exposed pkg t).0 reached, (Granted-MayPublish h pkg t e reached).0 granted),
          λ (exposed, may).
              let e = package_named pkg may.0 in
              let reached = (Reached-Exposed pkg t).1 exposed in
              spec.1 (e, reached, (Granted-MayPublish h pkg t e reached).1 may),
        )

  -- Over a database that behaves as the procedure does, with no single name at the limit, and
  -- answers the reads of maintainers, the step from a search to its keyholders returns a roster. It
  -- lists an account with a package at an instant exactly when three things hold: the pattern for
  -- packages accepts the package's name; a path, valid at that instant and within the depth bound,
  -- leads from the project's versions to a version of the package, with every step out of a version
  -- whose name the pattern for versions accepts; and an edge of the graph lets the account publish
  -- the package at that same instant. A package with another name, such as one with capital letters,
  -- is never listed, whoever holds it.
  pub find_keyholders_exact :
      (roster : List Keyholder) × (counts : Roster) × (find_keyholders db r ≡ ok (roster, counts))
      × ((h pkg : Text) (t : ℕ)
          → Listed roster h pkg t
            ↔ (Exposed sources options graph pkg t × MayPublish maintainers h pkg t))
  find_keyholders_exact =
      let asked = sort_by text_lt (union_packages r.union) in
      let (es, q) =
        read_chunks-Returns (maintains db)
          (λ valid. let (rows, k) = answers valid in (rows, k, read_maintains-Returns rows))
          asked in
      let exact =
        read_chunks-Exact source_of Maintains (maintains db) maintainers rights read_maintains-Reads
          asked es q in
      let found = roster_of (coexisting_packages r.coexistence) es in
      (found.0, found.1, find_keyholders-ok db r es q, listed es exact)
