-- ===== src/Semver/Range/Release.antt =====
-- What the desugared ranges of internal/semver/range.go mean for a release, a version without a
-- prerelease: the range operators of node-semver, said without comparators.
use keyholders.Base.{
  ℕ, ◌+◌, ◌<◌, ◌≡◌, Bool, true, false, ◌&&◌, ◌||◌, ltb, leb, ◌==◌, if◌then◌else◌, List, [], ◌∷◌,
  Text, arith, u64_mod,
}
use keyholders.Semver.Version.{Version, is_empty, compare, compare_pre, cmp_uint, or_else}
use keyholders.Semver.Range.{
  Op, op_lt, op_lte, op_gt, op_gte, op_eq, comparator, Partial, version_of, zero_pre, release, inc,
  bound_set, exact_set, tilde_set, caret_set, hyphen_set, holds, satisfies_comparator,
  satisfies_all, satisfies_set,
}

-- The numbers of `v` come before `a.b.c`.
abbrev pub before : Version → ℕ → ℕ → ℕ → Bool
before v a b c =
    ltb v.major a || (v.major == a && (ltb v.minor b || (v.minor == b && ltb v.patch c)))

-- A release is below the lowest prerelease of `a.b.c` exactly when its numbers are.
lt-zero_pre :
    (v : Version) (a b c : ℕ)
    → v.pre ≡ []
    → holds op_lt (compare v (zero_pre a b c)) ≡ before v a b c
unfolding compare
lt-zero_pre v a b c h = rw h (unfold compare_pre in ground arith)

-- The lower bound, as a test.
abbrev pub at_least : Version → Partial → Bool
at_least v p = holds op_gte (compare v (version_of p))

at_least-numbers :
    (v : Version) (p : Partial) → at_least v p ≡ true → before v p.major p.minor p.patch ≡ false
unfolding compare
at_least-numbers v p h = ground arith

-- No component overflows when it is raised.
pub record Fits (p : Partial) : Type 0 where
  pub major : p.major + 1 < u64_mod
  pub minor : p.minor + 1 < u64_mod
  pub patch : p.patch + 1 < u64_mod

-- A set of a lower and an upper bound, on a release.
two_bounds :
    (v : Version) (p : Partial) (a b c : ℕ)
    → v.pre ≡ []
    → satisfies_set (comparator op_gte (version_of p) ∷ comparator op_lt (zero_pre a b c) ∷ []) v
      ≡ (at_least v p && before v a b c)
unfolding satisfies_set satisfies_all satisfies_comparator
two_bounds v p a b c h = rw (lt-zero_pre v a b c h) (ground arith)

-- The version agrees with the partial one on all components up to the left-most that is not zero.
abbrev pub same_leading : Partial → Version → Bool
same_leading p v =
    v.major == p.major
    && (if ltb 0 p.major || (if p.has_minor then false else true)
        then true
        else v.minor == p.minor
          && (if ltb 0 p.minor || (if p.has_patch then false else true)
              then true
              else v.patch == p.patch))

-- Where no component of `p` overflows on its increment, `^p` admits a release exactly when it is not
-- below `p` and agrees with it up to the left-most component that is not zero.
pub caret_release :
    (p : Partial) (v : Version)
    → Fits p
    → v.pre ≡ []
    → satisfies_set (caret_set p) v ≡ (at_least v p && same_leading p v)
unfolding caret_set
caret_release p v f h = ground (
  arith,
  at_least-numbers v p,
  two_bounds v p (inc p.major) 0 0 h,
  two_bounds v p p.major (inc p.minor) 0 h,
  two_bounds v p p.major p.minor (inc p.patch) h,
)

-- The version has the components that the partial one gives, up to the minor.
abbrev pub same_given : Partial → Version → Bool
same_given p v = v.major == p.major && (if p.has_minor then v.minor == p.minor else true)

-- Where no component of `p` overflows on its increment, `~p` admits a release exactly when it is not
-- below `p` and has its major and any minor given.
pub tilde_release :
    (p : Partial) (v : Version)
    → Fits p
    → v.pre ≡ []
    → satisfies_set (tilde_set p) v ≡ (at_least v p && same_given p v)
unfolding tilde_set
tilde_release p v f h = ground (
  arith,
  at_least-numbers v p,
  two_bounds v p (inc p.major) 0 0 h,
  two_bounds v p p.major (inc p.minor) 0 h,
)

-- The numbers of the version are those of the partial one.
abbrev pub same_all : Partial → Version → Bool
same_all p v = v.major == p.major && (v.minor == p.minor && v.patch == p.patch)

exactly :
    (p : Partial) (v : Version)
    → v.pre ≡ []
    → satisfies_set (comparator op_eq (version_of p) ∷ []) v ≡ (is_empty p.pre && same_all p v)
unfolding satisfies_set satisfies_all satisfies_comparator compare
exactly p v h = rw h (go p.pre)
  where
    go :
        (pre : List Text)
        → (if (holds op_eq (
                or_else (cmp_uint v.major p.major) (
                  or_else
                    (cmp_uint v.minor p.minor)
                    (or_else (cmp_uint v.patch p.patch) (compare_pre [] pre))))
              && true)
            then true
            else false)
          ≡ (is_empty pre && same_all p v)
    go [] = unfold compare_pre in ground arith
    go (s ∷ rest) = unfold compare_pre in ground arith

-- Where no component overflows on its increment, a partial version without a patch admits the
-- releases that it abbreviates, and a full one admits the release that has its numbers, if it is no
-- prerelease.
pub exact_release :
    (p : Partial) (v : Version)
    → Fits p
    → v.pre ≡ []
    → satisfies_set (exact_set p) v
      ≡ (if p.has_patch then is_empty p.pre && same_all p v else at_least v p && same_given p v)
unfolding exact_set
exact_release p v f h = ground (
  arith,
  exactly p v h,
  at_least-numbers v p,
  two_bounds v p (inc p.major) 0 0 h,
  two_bounds v p p.major (inc p.minor) 0 h,
)

-- The release lies beyond all that a partial version abbreviates.
abbrev pub beyond : Partial → Version → Bool
beyond p v = ltb p.major v.major || (v.major == p.major && (p.has_minor && ltb p.minor v.minor))

one_bound :
    (o : Op) (w v : Version)
    → v.pre ≡ []
    → satisfies_set (comparator o w ∷ []) v ≡ holds o (compare v w)
unfolding satisfies_set satisfies_all satisfies_comparator
one_bound o w v h = rw h (ground arith)

gte-release :
    (v : Version) (a b : ℕ)
    → v.pre ≡ []
    → holds op_gte (compare v (release a b)) ≡ (ltb a v.major || (v.major == a && leb b v.minor))
unfolding compare
gte-release v a b h = rw h (unfold compare_pre in ground arith)

-- The four inequalities on a partial version without a patch, where no component overflows on its
-- increment, at a release: `>` admits what lies beyond all that
-- it abbreviates and `<=` the rest, `>=` and `<` compare with its least release.
pub bound_release :
    (p : Partial) (v : Version)
    → Fits p
    → p.has_patch ≡ false
    → v.pre ≡ []
    → (satisfies_set (bound_set op_gt p) v ≡ beyond p v)
      × (satisfies_set (bound_set op_lte p) v ≡ (if beyond p v then false else true))
      × (satisfies_set (bound_set op_gte p) v ≡ at_least v p)
      × (satisfies_set (bound_set op_lt p) v ≡ (if at_least v p then false else true))
unfolding bound_set
bound_release p v f full h = (
  ground (
    arith,
    one_bound op_gte (release p.major (inc p.minor)) v h,
    one_bound op_gte (release (inc p.major) 0) v h,
    gte-release v p.major (inc p.minor) h,
    gte-release v (inc p.major) 0 h,
  ),
  ground (
    arith,
    one_bound op_lt (zero_pre p.major (inc p.minor) 0) v h,
    one_bound op_lt (zero_pre (inc p.major) 0 0) v h,
    lt-zero_pre v p.major (inc p.minor) 0 h,
    lt-zero_pre v (inc p.major) 0 0 h,
  ),
  ground (arith, one_bound op_gte (version_of p) v h),
  ground (arith, one_bound op_lt (version_of p) v h),
)

-- Where no component of `hi` overflows on its increment, `lo - hi` admits a release exactly when it
-- is not below `lo` and not above a full `hi`, or not beyond what a shorter `hi` abbreviates.
pub hyphen_release :
    (lo hi : Partial) (v : Version)
    → Fits hi
    → v.pre ≡ []
    → satisfies_set (hyphen_set lo hi) v ≡ (
        at_least v lo
        && (if hi.has_patch
            then holds op_lte (compare v (version_of hi))
            else if beyond hi v
            then false
            else true))
unfolding hyphen_set satisfies_set satisfies_all satisfies_comparator
hyphen_release lo hi v f h =
    rw h (
      ground (arith, lt-zero_pre v hi.major (inc hi.minor) 0 h, lt-zero_pre v (inc hi.major) 0 0 h))
