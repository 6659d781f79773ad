-- ===== src/Query/Cut/Removal.antt =====
-- The lists that internal/query/cut.go builds, as membership tests.
use keyholders.Base.{
  has_key, ◌≡◌, refl, sym, Bool, true, false, ◌&&◌, ◌||◌, not, List, [], ◌∷◌, ◌++◌, arith,
  Bool-cases, inl, inr, Text, Table, text_eq, text_eq_iff, text_eq_refl, text_eq→eq, subst, lookup,
  In, In-cons_of,
}
use keyholders.Query.Interval.{Set}
use keyholders.Query.Reach.{has}
use keyholders.Query.Audit.{package_urn_of}
use keyholders.Query.Cut.{
  versions_of, blocked_versions, reached_packages, lost_packages, beyond_packages,
}
use keyholders.Semver.Version.{is_empty}

-- The version belongs to a package that the account holds.
abbrev pub held_by : Table Set → Text → Bool
held_by through urn = not (is_empty (package_urn_of urn)) && has_key through (package_urn_of urn)

has-append : (xs ys : List Text) (u : Text) → has (xs ++ ys) u ≡ (has xs u || has ys u)
has-append [] ys u = refl
has-append (x ∷ xs) ys u = ground (arith, has-append xs ys u)

pub In-has : (u : Text) (xs : List Text) → In u xs → has xs u ≡ true
In-has u [] m = elim m [ ]
In-has u (x ∷ xs) In.head = ground (arith, text_eq_refl u)
In-has u (x ∷ xs) (In.tail m) = ground (arith, In-has u xs m)

pub has-In : (u : Text) (xs : List Text) → has xs u ≡ true → In u xs
has-In u [] h = cc
has-In u (x ∷ xs) h = elim (Bool-cases (text_eq x u)) [
  | inl here ↦ In-cons_of xs (inl (sym (text_eq→eq x u here)))
  | inr other ↦ In.tail (has-In u xs (ground arith))
]

abbrev belongs : Text → Text → Bool
belongs pkg urn = not (is_empty (package_urn_of urn)) && text_eq (package_urn_of urn) pkg

versions_of_lem :
    (coexistence : Table Set) (pkg u : Text)
    → has (versions_of coexistence pkg) u ≡ (has_key coexistence u && belongs pkg u)
unfolding versions_of lookup
versions_of_lem [] pkg u = refl
versions_of_lem ((w, s) ∷ coexistence) pkg u =
    ground (arith, text_eq_iff w u, versions_of_lem coexistence pkg u)

pub blocked_versions_lem :
    (coexistence through : Table Set) (u : Text)
    → has (blocked_versions coexistence through) u ≡ (has_key coexistence u && held_by through u)
unfolding blocked_versions lookup
blocked_versions_lem coexistence [] u = ground arith
blocked_versions_lem coexistence ((pkg, s) ∷ through) u = ground (
  arith,
  has-append (versions_of coexistence pkg) (blocked_versions coexistence through) u,
  versions_of_lem coexistence pkg u,
  blocked_versions_lem coexistence through u,
  text_eq_iff pkg (package_urn_of u),
  text_eq_iff (package_urn_of u) pkg,
)

pub lost_packages_lem :
    (before after : List Text) (p : Text)
    → has (lost_packages before after) p ≡ (has before p && not (has after p))
unfolding lost_packages
lost_packages_lem [] after p = refl
lost_packages_lem (q ∷ before) after p =
    ground (arith, text_eq_iff q p, lost_packages_lem before after p)

pub beyond_packages_lem :
    (lost : List Text) (through : Table Set) (p : Text)
    → has (beyond_packages lost through) p ≡ (has lost p && not (has_key through p))
unfolding beyond_packages
beyond_packages_lem [] through p = refl
beyond_packages_lem (q ∷ lost) through p =
    ground (arith, text_eq_iff q p, beyond_packages_lem lost through p)

key_later :
    (w : Text) (s : Set) (m : Table Set) (u : Text)
    → has_key m u ≡ true
    → has_key ((w, s) ∷ m) u ≡ true
unfolding lookup
key_later w s m u h = ground arith

-- Some reached version belongs to the package.
pub reached_packages_sound :
    (coexistence : Table Set) (p : Text)
    → has (reached_packages coexistence) p ≡ true
    → (u : Text) × (has_key coexistence u ≡ true) × (package_urn_of u ≡ p) × (is_empty p ≡ false)
unfolding reached_packages lookup
reached_packages_sound [] p h = cc
reached_packages_sound ((w, s) ∷ coexistence) p h =
    let later : has (reached_packages coexistence) p ≡ true
        → (u : Text) × (has_key ((w, s) ∷ coexistence) u ≡ true)
          × (package_urn_of u ≡ p)
          × (is_empty p ≡ false) =
      λ k.
        let (u, key, e, n) = reached_packages_sound coexistence p k in
        (u, key_later w s coexistence u key, e, n) in
    elim (Bool-cases
      (is_empty (package_urn_of w) || has (reached_packages coexistence) (package_urn_of w))) [
        | inl skip ↦ later (ground arith)
        | inr fresh ↦ elim (Bool-cases (text_eq (package_urn_of w) p)) [
          | inl here ↦
              let same = text_eq→eq (package_urn_of w) p here in
              (
                w,
                ground (arith, text_eq_refl w),
                same,
                subst (λ q. is_empty q ≡ false) same (ground arith),
              )
          | inr other ↦ later (ground arith)
        ]
      ]

pub reached_packages_complete :
    (coexistence : Table Set) (u : Text)
    → has_key coexistence u ≡ true
    → is_empty (package_urn_of u) ≡ false
    → has (reached_packages coexistence) (package_urn_of u) ≡ true
unfolding reached_packages lookup
reached_packages_complete [] u h k = cc
reached_packages_complete ((w, s) ∷ coexistence) u h k = ground (
  arith,
  text_eq_iff w u,
  text_eq_iff (package_urn_of w) (package_urn_of u),
  reached_packages_complete coexistence u,
)
