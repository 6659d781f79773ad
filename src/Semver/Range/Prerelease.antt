-- ===== src/Semver/Range/Prerelease.antt =====
-- The prerelease rule of `Satisfies` in internal/semver/range.go.
use Prim.Native.Nat.{lt}
use keyholders.Base.{
  ℕ, ◌≡◌, ◌≢◌, ◌↔◌, refl, ◌⊎◌, inl, inr, true, false, ◌&&◌, ◌||◌, ltb, subst, if◌then◌else◌, List,
  [], ◌∷◌, Text, text_eq, arith, Bool-cases, In,
}
use keyholders.Semver.Version.{
  Version, is_prerelease, is_empty, compare, compare_pre, compare_idents, compare_ident,
}
use keyholders.Semver.Range.{
  op_lt, op_gte, Comparator, comparator, ComparatorSet, Range, Partial, version_of, zero_pre,
  same_numbers, holds, satisfies_comparator, satisfies_all, mentions, satisfies_set, satisfies_any,
  satisfies, caret_set, tilde_set, inc,
}

satisfies_all-In :
    (s : ComparatorSet) (v : Version) (c : Comparator)
    → satisfies_all s v ≡ true
    → In c s
    → satisfies_comparator c v ≡ true
unfolding satisfies_all
satisfies_all-In [] v c h m = elim m [ ]
satisfies_all-In (c ∷ s) v d h In.head = ground arith
satisfies_all-In (c ∷ s) v d h (In.tail m) = satisfies_all-In s v d (ground arith) m

satisfies_all_of :
    (s : ComparatorSet) (v : Version)
    → ((c : Comparator) → In c s → satisfies_comparator c v ≡ true)
    → satisfies_all s v ≡ true
unfolding satisfies_all
satisfies_all_of [] v f = refl
satisfies_all_of (c ∷ s) v f = rw (f c In.head) (satisfies_all_of s v (λ d m. f d (In.tail m)))

-- Some comparator of the set is a prerelease of the version's numbers.
abbrev Mentions : ComparatorSet → Version → Type 0
Mentions s v =
    (c : Comparator) × In c s × (is_prerelease c.ver ≡ true) × (same_numbers c.ver v ≡ true)

mentions→Mentions : (s : ComparatorSet) (v : Version) → mentions s v ≡ true → Mentions s v
unfolding mentions
mentions→Mentions [] v h = cc
mentions→Mentions (c ∷ s) v h = elim (Bool-cases (is_prerelease c.ver && same_numbers c.ver v)) [
  | inl here ↦ (c, In.head, ground arith, ground arith)
  | inr other ↦ let (d, m, p, q) = mentions→Mentions s v (ground arith) in (d, In.tail m, p, q)
]

mentions_of :
    (s : ComparatorSet) (v : Version) (c : Comparator)
    → In c s
    → is_prerelease c.ver ≡ true
    → same_numbers c.ver v ≡ true
    → mentions s v ≡ true
unfolding mentions
mentions_of [] v d m p q = elim m [ ]
mentions_of (c ∷ s) v d In.head p q = ground arith
mentions_of (c ∷ s) v d (In.tail m) p q = ground (arith, mentions_of s v d m p q)

-- What it takes for a set to admit a version.
abbrev Admits : ComparatorSet → Version → Type 0
Admits s v =
    ((c : Comparator) → In c s → satisfies_comparator c v ≡ true)
    × (is_prerelease v ≡ true → Mentions s v)

satisfies_set→Admits : (s : ComparatorSet) (v : Version) → satisfies_set s v ≡ true → Admits s v
unfolding satisfies_set
satisfies_set→Admits s v h =
    (λ c m. satisfies_all-In s v c (ground arith) m, λ p. mentions→Mentions s v (ground arith))

Admits→satisfies_set : (s : ComparatorSet) (v : Version) → Admits s v → satisfies_set s v ≡ true
unfolding satisfies_set
Admits→satisfies_set s v (f, g) = elim (Bool-cases (is_prerelease v)) [
  | inl p ↦ let (c, m, q, r) = g p in rw (satisfies_all_of s v f, p, mentions_of s v c m q r) refl
  | inr p ↦ rw (satisfies_all_of s v f, p) refl
]

satisfies_any-In :
    (sets : List ComparatorSet) (v : Version)
    → satisfies_any sets v ≡ true
    → (s : ComparatorSet) × In s sets × (satisfies_set s v ≡ true)
unfolding satisfies_any
satisfies_any-In [] v h = cc
satisfies_any-In (s ∷ sets) v h = elim (Bool-cases (satisfies_set s v)) [
  | inl here ↦ (s, In.head, here)
  | inr other ↦ let (u, m, k) = satisfies_any-In sets v (ground arith) in (u, In.tail m, k)
]

satisfies_any_of :
    (sets : List ComparatorSet) (v : Version) (s : ComparatorSet)
    → In s sets
    → satisfies_set s v ≡ true
    → satisfies_any sets v ≡ true
unfolding satisfies_any
satisfies_any_of [] v u m h = elim m [ ]
satisfies_any_of (s ∷ sets) v u In.head h = ground arith
satisfies_any_of (s ∷ sets) v u (In.tail m) h = ground (arith, satisfies_any_of sets v u m h)

-- A range admits a version exactly when the version passes every comparator of some set, and, if it
-- is a prerelease, that set names a prerelease of the same three numbers.
pub satisfies_iff :
    (r : Range) (v : Version)
    → (satisfies r v ≡ true) ↔ (
        (s : ComparatorSet) × In s r.sets
        × ((c : Comparator) → In c s → satisfies_comparator c v ≡ true)
        × (is_prerelease v ≡ true
            → (c : Comparator) × In c s
              × (is_prerelease c.ver ≡ true)
              × (same_numbers c.ver v ≡ true)))
unfolding satisfies
satisfies_iff r v = (
  λ h.
      let (s, m, k) = satisfies_any-In r.sets v h in
      let (f, g) = satisfies_set→Admits s v k in (s, m, f, g),
  λ (s, m, f, g). satisfies_any_of r.sets v s m (Admits→satisfies_set s v (f, g)),
)

-- Nothing ranks below the prerelease `0`.
compare_ident-zero : (s : Text) → text_eq s (b'0' ∷ []) ≡ false → compare_ident s (b'0' ∷ []) ≢ lt
unfolding compare_ident
compare_ident-zero [] h = λ e. cc
compare_ident-zero (c ∷ s) h = ground arith

compare_idents-nil : (rest : List Text) → compare_idents rest [] ≢ lt
unfolding compare_idents
compare_idents-nil [] = λ e. cc
compare_idents-nil (s ∷ rest) = λ e. cc

compare_pre-zero :
    (pre : List Text) → is_empty pre ≡ false → compare_pre pre ((b'0' ∷ []) ∷ []) ≢ lt
unfolding compare_pre compare_idents
compare_pre-zero [] h = cc
compare_pre-zero (s ∷ rest) h = elim (Bool-cases (text_eq s (b'0' ∷ []))) [
  | inl same ↦ rw same (compare_idents-nil rest)
  | inr other ↦ rw other (compare_ident-zero s other)
]

-- A prerelease that passes an upper bound `a.b.c-0` has other numbers.
zero_pre-numbers :
    (v : Version) (a b c : ℕ)
    → is_prerelease v ≡ true
    → holds op_lt (compare v (zero_pre a b c)) ≡ true
    → same_numbers (zero_pre a b c) v ≡ false
unfolding compare
zero_pre-numbers v a b c p h = ground (arith, compare_pre-zero v.pre)

two_bounds :
    (w v : Version) (a b c : ℕ)
    → is_prerelease v ≡ true
    → satisfies_set (comparator op_gte w ∷ comparator op_lt (zero_pre a b c) ∷ []) v ≡ true
    → (is_prerelease w ≡ true) × (same_numbers w v ≡ true)
unfolding satisfies_set satisfies_all satisfies_comparator mentions
two_bounds w v a b c p h = ground (arith, zero_pre-numbers v a b c p)

-- Both kinds of range are a lower bound and the lowest prerelease of some version above.
abbrev Bounded : Partial → ComparatorSet → Type 0
Bounded p s =
    (a b c : ℕ) × (s ≡ comparator op_gte (version_of p) ∷ comparator op_lt (zero_pre a b c) ∷ [])

caret_bound : (p : Partial) → Bounded p (caret_set p)
unfolding caret_set
caret_bound p = elim (Bool-cases (ltb 0 p.major || (if p.has_minor then false else true))) [
  | inl major ↦ (inc p.major, 0, 0, rw major refl)
  | inr fixed ↦ elim (Bool-cases (ltb 0 p.minor || (if p.has_patch then false else true))) [
    | inl minor ↦ (p.major, inc p.minor, 0, rw (fixed, minor) refl)
    | inr patch ↦ (p.major, p.minor, inc p.patch, rw (fixed, patch) refl)
  ]
]

tilde_bound : (p : Partial) → Bounded p (tilde_set p)
unfolding tilde_set
tilde_bound p = elim (Bool-cases p.has_minor) [
  | inl minor ↦ (p.major, inc p.minor, 0, rw minor refl)
  | inr major ↦ (inc p.major, 0, 0, rw major refl)
]

-- The upper bound of a caret or tilde range lets no prerelease of the next version in: a prerelease
-- that such a range admits has the numbers of the range's own version, which is a prerelease too.
pub caret_prerelease :
    (p : Partial) (v : Version)
    → is_prerelease v ≡ true
    → (satisfies_set (caret_set p) v ≡ true) ⊎ (satisfies_set (tilde_set p) v ≡ true)
    → (is_prerelease (version_of p) ≡ true) × (same_numbers (version_of p) v ≡ true)
caret_prerelease p v pre h = elim h [
  | inl caret ↦
      let (a, b, c, e) = caret_bound p in
      two_bounds (version_of p) v a b c pre (subst (λ s. satisfies_set s v ≡ true) e caret)
  | inr tilde ↦
      let (a, b, c, e) = tilde_bound p in
      two_bounds (version_of p) v a b c pre (subst (λ s. satisfies_set s v ≡ true) e tilde)
]
