-- ===== src/Examples/Ranges.antt =====
-- internal/semver/range.go at concrete ranges.
use Prim.Native.Nat.{gt}
use keyholders.Base.{
  ◌≡◌, ◌≢◌, ◌↔◌, inl, refl, true, false, ◌&&◌, List, [], ◌∷◌, none, some, arith, In, bytes, text_eq,
  text_lt,
}
use keyholders.Semver.Version.{Version, compare, compare_pre, is_prerelease}
use keyholders.Semver.Version.Total.{IsCanonical}
use keyholders.Semver.Range.{
  op_lt, op_gte, Comparator, comparator, ComparatorSet, Partial, Range, version_of, zero_pre,
  same_numbers, satisfies_comparator, satisfies_all, satisfies_set, satisfies_any, satisfies,
  mentions, caret_set, max_from, max_satisfying,
}
use keyholders.Semver.Range.Parse.{parse_range}
use keyholders.Semver.Range.Release.{Fits, at_least, same_leading, caret_release}
use keyholders.Semver.Range.Best.{max_satisfying_best}
use keyholders.Semver.Range.Prerelease.{satisfies_iff, caret_prerelease}
use keyholders.Examples.Versions.{version}

-- `1.2.3`, and `1.2` with no patch.
abbrev full : Partial
full = record { major = 1; minor = 2; patch = 3; has_minor = true; has_patch = true; pre = [] }

abbrev short : Partial
short = record { major = 1; minor = 2; patch = 0; has_minor = true; has_patch = false; pre = [] }

abbrev beta : Partial
beta = record {
  major = 1;
  minor = 2;
  patch = 3;
  has_minor = true;
  has_patch = true;
  pre = bytes "beta" ∷ [];
}

abbrev pub caret_full : Range
caret_full = record {
  sets = (comparator op_gte (version 1 2 3 []) ∷ comparator op_lt (zero_pre 2 0 0) ∷ []) ∷ [];
  raw = bytes "^1.2.3";
}

parse_range-caret : parse_range (bytes "^1.2.3") ≡ some caret_full
unfolding parse_range text_eq
parse_range-caret = refl

-- A space after the operator, and a union of a hyphen range and a partial version.
parse_range-loose :
    parse_range (bytes ">= 1.2 || 1.0.0 - 2")
    ≡ some (record {
      sets =
          (comparator op_gte (version 1 2 0 []) ∷ [])
          ∷ (comparator op_gte (version 1 0 0 []) ∷ comparator op_lt (zero_pre 3 0 0) ∷ [])
          ∷ [];
      raw = bytes ">= 1.2 || 1.0.0 - 2";
    })
unfolding parse_range text_eq
parse_range-loose = refl

parse_range-none : parse_range (bytes "workspace:*") ≡ none
unfolding parse_range text_eq
parse_range-none = refl

full-Fits : Fits full
full-Fits = omega arith

short-Fits : Fits short
short-Fits = omega arith

caret_release_example :
    satisfies_set (caret_set full) (version 1 9 0 [])
    ≡ (at_least (version 1 9 0 []) full && same_leading full (version 1 9 0 []))
caret_release_example = caret_release full (version 1 9 0 []) full-Fits refl

beta_4-admitted :
    satisfies_set (caret_set beta) (version 1 2 3 (bytes "beta" ∷ bytes "4" ∷ [])) ≡ true
unfolding satisfies_set satisfies_all satisfies_comparator mentions caret_set compare compare_pre
    text_eq text_lt
beta_4-admitted = refl

caret_prerelease_example :
    (is_prerelease (version_of beta) ≡ true)
    × (same_numbers (version_of beta) (version 1 2 3 (bytes "beta" ∷ bytes "4" ∷ [])) ≡ true)
caret_prerelease_example =
    caret_prerelease beta (version 1 2 3 (bytes "beta" ∷ bytes "4" ∷ [])) refl (inl beta_4-admitted)

satisfies_iff_example : (satisfies caret_full (version 1 9 0 []) ≡ true) ↔ (
    (s : ComparatorSet) × In s caret_full.sets
    × ((c : Comparator) → In c s → satisfies_comparator c (version 1 9 0 []) ≡ true)
    × (is_prerelease (version 1 9 0 []) ≡ true
        → (c : Comparator) × In c s
          × (is_prerelease c.ver ≡ true)
          × (same_numbers c.ver (version 1 9 0 []) ≡ true)))
satisfies_iff_example = satisfies_iff caret_full (version 1 9 0 [])

abbrev published : List Version
published = version 1 2 4 [] ∷ version 1 9 0 [] ∷ version 2 0 0 [] ∷ []

max_satisfying-published : max_satisfying published caret_full ≡ some (version 1 9 0 [])
unfolding max_satisfying max_from satisfies satisfies_any satisfies_set satisfies_all
    satisfies_comparator compare compare_pre
max_satisfying-published = refl

max_satisfying_best_example :
    ((b : Version)
      → max_satisfying published caret_full ≡ some b
      → In b published
        × (satisfies caret_full b ≡ true)
        × ((v : Version) → In v published → satisfies caret_full v ≡ true → compare v b ≢ gt))
    × (max_satisfying published caret_full ≡ none
        → (v : Version) → In v published
        → satisfies caret_full v ≡ false)
unfolding IsCanonical
max_satisfying_best_example = max_satisfying_best published caret_full (tt, (tt, (tt, tt)))
