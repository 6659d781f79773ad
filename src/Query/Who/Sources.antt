-- ===== src/Query/Who/Sources.antt =====
-- The sources of the reverse search of internal/query/who.go: a version is one at the instants at which it
-- exists, the account holds its package, and the question asks.
use keyholders.Base.{
  ℕ, ◌≡◌, refl, sym, ◌∙◌, inl, inr, Bool-cases, Bool, true, false, ◌&&◌, ◌||◌, List, [], ◌∷◌, ◌++◌,
  Text, Table, text_eq, any, any-In, In-any, In-sort_by, sort_by, arith,
}
use keyholders.Query.Interval.{Interval, Set, empty, intersect, contains, holds_at}
use keyholders.Query.Interval.Covers.{contains-intersect}
use keyholders.Query.Reach.{Entry, set_at}
use keyholders.Query.Reach.Offers.{held}
use keyholders.Query.Rows.{VersionAttrs}
use keyholders.Query.Who.{existed, live_entries, version_entries, by_urn}

-- The entry is one of the version at the instant.
abbrev pub is_source : Text → ℕ → Entry → Bool
is_source urn t e = text_eq e.urn urn && contains e.valid t

-- The version is the one that is asked about, and all three hold at the instant.
abbrev pub is_exposed : Table Set → Interval → Text → ℕ → Text × VersionAttrs → Bool
is_exposed spans within urn t (pkg, v) =
    text_eq v.urn urn && (contains (existed v) t && (held spans pkg t && contains within t))

any-append {ℓ} :
    {A : Type ℓ} (p : A → Bool) (xs ys : List A) → any p (xs ++ ys) ≡ (any p xs || any p ys)
any-append p [] ys = refl
any-append p (x ∷ xs) ys = ground (arith, any-append p xs ys)

contains-empty : (i : Interval) (t : ℕ) → empty i ≡ true → contains i t ≡ false
contains-empty i t h = ground arith

live_entries-any :
    (v : VersionAttrs) (within : Interval) (spells : Set) (urn : Text) (t : ℕ)
    → any (is_source urn t) (live_entries v within spells)
      ≡ (text_eq v.urn urn && (contains (existed v) t && (holds_at spells t && contains within t)))
unfolding live_entries
live_entries-any v within [] urn t = ground arith
live_entries-any v within (spell ∷ spells) urn t =
    let live = intersect (intersect (existed v) spell) within in
    let when = contains-intersect (intersect (existed v) spell) within t in
    let inner = contains-intersect (existed v) spell t in
    let rest = live_entries-any v within spells urn t in
    elim (Bool-cases (empty live)) [
      | inl gone ↦ rw gone (ground (arith, rest, when, inner, contains-empty live t gone))
      | inr some_time ↦ rw some_time (ground (arith, rest, when, inner))
    ]

version_entries-any :
    (spans : Table Set) (within : Interval) (items : List (Text × VersionAttrs)) (urn : Text)
    (t : ℕ)
    → any (is_source urn t) (version_entries spans within items)
      ≡ any (is_exposed spans within urn t) items
unfolding version_entries
version_entries-any spans within [] urn t = refl
version_entries-any spans within ((pkg, v) ∷ items) urn t = ground (
  arith,
  any-append (is_source urn t) (live_entries v within (set_at spans pkg))
      (version_entries spans within items),
  live_entries-any v within (set_at spans pkg) urn t,
  version_entries-any spans within items urn t,
)

-- The sorted sources hold a version at an instant exactly when a version with that name was read that
-- exists at the instant, in a package that the account holds then, and the question asks about then.
pub sources-exposed :
    (spans : Table Set) (within : Interval) (items : List (Text × VersionAttrs)) (urn : Text)
    (t : ℕ)
    → any (is_source urn t) (sort_by by_urn (version_entries spans within items))
      ≡ any (is_exposed spans within urn t) items
sources-exposed spans within items urn t =
    sorted (version_entries spans within items) ∙ version_entries-any spans within items urn t
  where
    sorted :
        (es : List Entry) → any (is_source urn t) (sort_by by_urn es) ≡ any (is_source urn t) es
    sorted es = elim (Bool-cases (any (is_source urn t) es)) [
      | inl yes_es ↦
          let (e, m, k) = any-In (is_source urn t) es yes_es in
          In-any (is_source urn t) e ((In-sort_by by_urn es).1 m) k ∙ sym yes_es
      | inr no_es ↦ elim (Bool-cases (any (is_source urn t) (sort_by by_urn es))) [
        | inr no_sorted ↦ no_sorted ∙ sym no_es
        | inl yes_sorted ↦
            let (e, m, k) = any-In (is_source urn t) (sort_by by_urn es) yes_sorted in
            yes_sorted ∙ sym (In-any (is_source urn t) e ((In-sort_by by_urn es).0 m) k)
      ]
    ]
