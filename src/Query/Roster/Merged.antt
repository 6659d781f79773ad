-- ===== src/Query/Roster/Merged.antt =====
-- The spans that internal/query/audit.go merges for a package are those of its versions.
use mathlib.Core.List.{foldl}
use keyholders.Base.{
  ℕ, ◌≡◌, refl, ◌∙◌, inl, inr, Bool-cases, Bool, false, ◌&&◌, ◌||◌, not, [], ◌∷◌, Text, Table,
  text_eq, text_eq_iff, lookup, arith,
}
use keyholders.Query.Interval.{Set, insert, holds_at, IsMaximal}
use keyholders.Query.Interval.Insert.{insert-IsMaximal, holds_at-insert}
use keyholders.Query.Reach.{set_at}
use keyholders.Query.Reach.Offers.{held, Maximal, set_at-put}
use keyholders.Query.Audit.{package_urn_of}
use keyholders.Query.Roster.{merge_spans, merge_version, coexisting_packages}
use keyholders.Semver.Version.{is_empty}

pub merge_spans-IsMaximal :
    (merged set : Set) → IsMaximal merged → IsMaximal (merge_spans merged set)
unfolding merge_spans
merge_spans-IsMaximal merged [] m = m
merge_spans-IsMaximal merged (i ∷ set) m =
    merge_spans-IsMaximal (insert merged i).0 set (insert-IsMaximal merged i m)

holds_at-merge_spans :
    (merged set : Set) (t : ℕ)
    → IsMaximal merged
    → holds_at (merge_spans merged set) t ≡ (holds_at set t || holds_at merged t)
unfolding merge_spans
holds_at-merge_spans merged [] t m = refl
holds_at-merge_spans merged (i ∷ set) t m = ground (
  arith,
  holds_at-merge_spans (insert merged i).0 set t (insert-IsMaximal merged i m),
  holds_at-insert merged i t m,
)

-- Some version of the package is reached at the instant.
abbrev pub version_held : Table Set → Text → ℕ → Bool
version_held [] pkg t = false
version_held ((urn, set) ∷ coexistence) pkg t =
    (text_eq (package_urn_of urn) pkg && (not (is_empty pkg) && holds_at set t))
    || version_held coexistence pkg t

merge_version-Maximal :
    (c : Table Set) (urn : Text) (set : Set) → Maximal c → Maximal (merge_version c (urn, set))
unfolding merge_version
merge_version-Maximal c urn set m v = ground (
  arith,
  merge_spans-IsMaximal (set_at c (package_urn_of urn)) set (m (package_urn_of urn)),
  m v,
  set_at-put (package_urn_of urn) v (merge_spans (set_at c (package_urn_of urn)) set) c,
)

held-merge_version :
    (c : Table Set) (urn : Text) (set : Set) (pkg : Text) (t : ℕ)
    → Maximal c
    → held (merge_version c (urn, set)) pkg t ≡ (
        (text_eq (package_urn_of urn) pkg && (not (is_empty pkg) && holds_at set t))
        || held c pkg t)
unfolding merge_version
held-merge_version c urn set pkg t m = elim (Bool-cases (text_eq (package_urn_of urn) pkg)) [
  | inl here ↦
      let same = (text_eq_iff (package_urn_of urn) pkg).0 here in
      rw (here, same)
        (ground (
          arith,
          holds_at-merge_spans (set_at c pkg) set t (m pkg),
          set_at-put pkg pkg (merge_spans (set_at c pkg) set) c,
          text_eq_iff pkg pkg,
        ))
  | inr other ↦ ground (
    arith,
    other,
    set_at-put (package_urn_of urn) pkg (merge_spans (set_at c (package_urn_of urn)) set) c,
  )
]

merged-Maximal :
    (c coexistence : Table Set) → Maximal c → Maximal (foldl merge_version c coexistence)
merged-Maximal c [] m = m
merged-Maximal c ((urn, set) ∷ coexistence) m =
    merged-Maximal (merge_version c (urn, set)) coexistence (merge_version-Maximal c urn set m)

held-merged :
    (c coexistence : Table Set) (pkg : Text) (t : ℕ)
    → Maximal c
    → held (foldl merge_version c coexistence) pkg t
      ≡ (version_held coexistence pkg t || held c pkg t)
held-merged c [] pkg t m = refl
held-merged c ((urn, set) ∷ coexistence) pkg t m = ground (
  arith,
  held-merged (merge_version c (urn, set)) coexistence pkg t (merge_version-Maximal c urn set m),
  held-merge_version c urn set pkg t m,
)

-- A package is reached at an instant exactly when one of its versions is.
pub held-coexisting_packages :
    (coexistence : Table Set) (pkg : Text) (t : ℕ)
    → held (coexisting_packages coexistence) pkg t ≡ version_held coexistence pkg t
unfolding coexisting_packages lookup
held-coexisting_packages coexistence pkg t =
    held-merged [] coexistence pkg t (λ v. tt) ∙ ground arith
