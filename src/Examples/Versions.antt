-- ===== src/Examples/Versions.antt =====
-- internal/semver/version.go at concrete versions.
use Prim.Native.Nat.{lt}
use keyholders.Base.{
  ℕ, ◌≡◌, refl, List, [], ◌∷◌, none, some, arith, Text, bytes, text_eq, text_lt, all_digits,
  is_space,
}
use keyholders.Semver.Version.{Version, parse, compare, to_string, compare_pre}
use keyholders.Semver.Version.Order.{compare-swap, swap}
use keyholders.Semver.Version.Total.{IsCanonical, leading_zero, compare_trans}
use keyholders.Semver.Version.RoundTrip.{IsPrintable, parse-to_string}

abbrev pub version : ℕ → ℕ → ℕ → List Text → Version
version a b c pre = record { major = a; minor = b; patch = c; pre = pre; build = [] }

abbrev alpha : Version
alpha = version 1 0 0 (bytes "alpha" ∷ [])

abbrev beta_2 : Version
beta_2 = version 1 0 0 (bytes "beta" ∷ bytes "2" ∷ [])

abbrev one : Version
one = version 1 0 0 []

abbrev built : Version
built = record {
  major = 1;
  minor = 20;
  patch = 3;
  pre = bytes "rc" ∷ bytes "1" ∷ [];
  build = bytes "x-7.y";
}

parse-built : parse (bytes " v1.20.3-rc.1+x-7.y") ≡ some built
unfolding parse
parse-built = refl

parse-leading_zero : parse (bytes "1.02.3") ≡ none
unfolding parse
parse-leading_zero = refl

to_string-built : to_string built ≡ bytes "1.20.3-rc.1+x-7.y"
unfolding to_string
to_string-built = refl

-- The order of the specification's own example.
compare-alpha : compare alpha beta_2 ≡ lt
unfolding compare compare_pre text_eq text_lt
compare-alpha = refl

compare-beta : compare beta_2 one ≡ lt
unfolding compare compare_pre
compare-beta = refl

alpha-IsCanonical : IsCanonical alpha
unfolding IsCanonical leading_zero all_digits
alpha-IsCanonical = (refl, tt)

beta-IsCanonical : IsCanonical beta_2
unfolding IsCanonical leading_zero all_digits
beta-IsCanonical = (refl, (refl, tt))

one-IsCanonical : IsCanonical one
unfolding IsCanonical
one-IsCanonical = tt

built-IsPrintable : IsPrintable built
unfolding is_space
built-IsPrintable = record {
  major = omega arith;
  minor = omega arith;
  patch = omega arith;
  pre = (
    record {
      nonempty = refl;
      no_dot = (refl, (refl, tt));
      no_plus = (refl, (refl, tt));
      no_space = (refl, (refl, tt));
    },
    (
      record { nonempty = refl; no_dot = (refl, tt); no_plus = (refl, tt); no_space = (refl, tt) },
      tt,
    ),
  );
  build = (refl, (refl, (refl, (refl, (refl, tt)))));
}

compare-swap_example : compare beta_2 alpha ≡ swap (compare alpha beta_2)
compare-swap_example = compare-swap alpha beta_2

compare_trans_example : compare alpha one ≡ lt
compare_trans_example =
    compare_trans alpha beta_2 one alpha-IsCanonical beta-IsCanonical one-IsCanonical compare-alpha
      compare-beta

parse-to_string_example : parse (to_string built) ≡ some built
parse-to_string_example = parse-to_string built built-IsPrintable
