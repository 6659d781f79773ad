-- ===== src/Semver/Range.antt =====
-- internal/semver/range.go: comparators, comparator sets and ranges, the sets that a partial version
-- stands for, and which versions satisfy a range. The text of a range is read in `Parse`.
pub mod Parse
pub mod Release
pub mod Best
pub mod Prerelease
use Prim.Native.Nat.{Ordering, lt, eq, gt}
use keyholders.Base.{
  ℕ, ◌+◌, ◌%◌, Bool, true, false, ◌&&◌, ◌||◌, ltb, ◌==◌, if◌then◌else◌, List, [], ◌∷◌, ◌++◌, Option,
  none, some, Text, u64_mod,
}
use keyholders.Semver.Version.{Version, zero_version, is_prerelease, compare}

pub data Op : Type 0 where
  op_lt op_lte op_gt op_gte op_eq : Op

pub record Comparator : Type 0 where
  pub op : Op
  pub ver : Version

abbrev pub ComparatorSet : Type 0
ComparatorSet = List Comparator

pub record Range : Type 0 where
  pub sets : List ComparatorSet
  pub raw : Text

abbrev pub comparator : Op → Version → Comparator
comparator op ver = record { op = op; ver = ver }

-- What every release satisfies.
abbrev pub any_set : ComparatorSet
any_set = comparator op_gte zero_version ∷ []

-- A version whose minor and patch may be absent.
pub record Partial : Type 0 where
  pub major : ℕ
  pub minor : ℕ
  pub patch : ℕ
  pub has_minor : Bool
  pub has_patch : Bool
  pub pre : List Text

abbrev pub version_of : Partial → Version
version_of p = record { major = p.major; minor = p.minor; patch = p.patch; pre = p.pre; build = [] }

-- The lowest prerelease of an upper bound.
abbrev pub zero_pre : ℕ → ℕ → ℕ → Version
zero_pre major minor patch = record {
  major = major;
  minor = minor;
  patch = patch;
  pre = (b'0' ∷ []) ∷ [];
  build = [];
}

abbrev pub release : ℕ → ℕ → Version
release major minor = record { major = major; minor = minor; patch = 0; pre = []; build = [] }

-- `n + 1` on 64 bits.
abbrev pub inc : ℕ → ℕ
inc n = (n + 1) % u64_mod

-- The upper bound that follows the last component given.
abbrev pub next_of : Partial → Version
next_of p = if p.has_minor then zero_pre p.major (inc p.minor) 0 else zero_pre (inc p.major) 0 0

unfoldable pub bound_set : Op → Partial → ComparatorSet
bound_set o p = if p.has_patch then comparator o (version_of p) ∷ [] else elim o [
  | op_gt ↦
      comparator op_gte
        (if p.has_minor then release p.major (inc p.minor) else release (inc p.major) 0)
      ∷ []
  | op_lte ↦ comparator op_lt (next_of p) ∷ []
  | other ↦ comparator other (version_of p) ∷ []
]

unfoldable pub exact_set : Partial → ComparatorSet
exact_set p =
    if p.has_patch
    then comparator op_eq (version_of p) ∷ []
    else comparator op_gte (version_of p) ∷ comparator op_lt (next_of p) ∷ []

unfoldable pub tilde_set : Partial → ComparatorSet
tilde_set p = comparator op_gte (version_of p) ∷ comparator op_lt (next_of p) ∷ []

unfoldable pub caret_set : Partial → ComparatorSet
caret_set p =
    let hi =
      if ltb 0 p.major || (if p.has_minor then false else true)
      then zero_pre (inc p.major) 0 0
      else if ltb 0 p.minor || (if p.has_patch then false else true)
      then zero_pre p.major (inc p.minor) 0
      else zero_pre p.major p.minor (inc p.patch) in
    comparator op_gte (version_of p) ∷ comparator op_lt hi ∷ []

unfoldable pub hyphen_set : Partial → Partial → ComparatorSet
hyphen_set lo hi =
    comparator op_gte (version_of lo)
    ∷ ((if hi.has_patch then comparator op_lte (version_of hi) else comparator op_lt (next_of hi))
        ∷ [])

-- `cmp < 0`, `cmp <= 0`, and so on.
abbrev pub holds : Op → Ordering → Bool
holds op_lt c = elim c [ lt ↦ true | _ ↦ false ]
holds op_lte c = elim c [ gt ↦ false | _ ↦ true ]
holds op_gt c = elim c [ gt ↦ true | _ ↦ false ]
holds op_gte c = elim c [ lt ↦ false | _ ↦ true ]
holds op_eq c = elim c [ eq ↦ true | _ ↦ false ]

unfoldable pub satisfies_comparator : Comparator → Version → Bool
satisfies_comparator c v = holds c.op (compare v c.ver)

unfoldable pub satisfies_all : ComparatorSet → Version → Bool
satisfies_all [] v = true
satisfies_all (c ∷ s) v = satisfies_comparator c v && satisfies_all s v

abbrev pub same_numbers : Version → Version → Bool
same_numbers a b = a.major == b.major && (a.minor == b.minor && a.patch == b.patch)

-- Some comparator names a prerelease of the same three numbers.
unfoldable pub mentions : ComparatorSet → Version → Bool
mentions [] v = false
mentions (c ∷ s) v = (is_prerelease c.ver && same_numbers c.ver v) || mentions s v

unfoldable pub satisfies_set : ComparatorSet → Version → Bool
satisfies_set s v =
    if satisfies_all s v then (if is_prerelease v then mentions s v else true) else false

unfoldable pub satisfies_any : List ComparatorSet → Version → Bool
satisfies_any [] v = false
satisfies_any (s ∷ sets) v = satisfies_set s v || satisfies_any sets v

unfoldable pub satisfies : Range → Version → Bool
satisfies r v = satisfies_any r.sets v

-- The one comparator of a range that admits every release.
unfoldable pub is_any : Range → Bool
is_any r = elim r.sets [
  | [] ↦ false
  | s ∷ sets ↦ elim sets [
    | _ ∷ _ ↦ false
    | [] ↦ elim s [
      | [] ↦ false
      | c ∷ more ↦ elim more [
        | _ ∷ _ ↦ false
        | [] ↦ elim c.op [
          | op_gte ↦
              (elim (compare c.ver zero_version) [ eq ↦ true | _ ↦ false ])
              && (if is_prerelease c.ver then false else true)
          | _ ↦ false
        ]
      ]
    ]
  ]
]

-- The loop of `MaxSatisfying`; nothing found is `none`.
unfoldable pub max_from : Option Version → List Version → Range → Option Version
max_from best [] r = best
max_from best (v ∷ versions) r =
    max_from
      (if satisfies r v
        then elim best [ none ↦ some v | some b ↦ elim (compare v b) [ gt ↦ some v | _ ↦ some b ] ]
        else best)
      versions r

unfoldable pub max_satisfying : List Version → Range → Option Version
max_satisfying versions r = max_from none versions r
