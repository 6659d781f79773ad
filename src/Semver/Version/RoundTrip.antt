-- ===== src/Semver/Version/RoundTrip.antt =====
-- `Parse` of internal/semver/version.go reads back what `String` prints.
use keyholders.Base.{
  ℕ, ◌<◌, ◌^◌, ◌≡◌, refl, ◌∙◌, inl, inr, true, false, ◌==◌, if◌then◌else◌, List, [], ◌∷◌, ◌++◌,
  none, some, arith, All, Text, is_space, trim_space, trim_byte, cut, split, join, is_digit,
  all_digits, format_uint,
}
use mathlib.Core.List.{append-nil}
use mathlib.Core.Path.{ap₂}
use keyholders.Base.Decimals.{format_uint-digits}
use keyholders.Base.Cutting.{
  Lacks, Spaceless, All-append, All-join, cut-append, cut-none, split-none, split-append,
  split-join, trim_space-Spaceless, digits-Lacks, digits-Spaceless,
}
use keyholders.Semver.Version.{
  Version, is_empty, has_empty, parse_numeric, parse_parts, parse_pre, parse_body, parse, to_string,
  or_empty,
}

-- An identifier that the text form can hold.
pub record IsIdent (s : Text) : Type 0 where
  pub nonempty : is_empty s ≡ false
  pub no_dot : Lacks b'.' s
  pub no_plus : Lacks b'+' s
  pub no_space : Spaceless s

-- A version that its text form determines: 64-bit numbers, and no separator where it would split.
pub record IsPrintable (v : Version) : Type 0 where
  pub major : v.major < 2 ^ 64
  pub minor : v.minor < 2 ^ 64
  pub patch : v.patch < 2 ^ 64
  pub pre : All IsIdent v.pre
  pub build : Spaceless v.build

pub parse_numeric-format_uint : (n : ℕ) → n < 2 ^ 64 → parse_numeric (format_uint n) ≡ some n
unfolding parse_numeric
parse_numeric-format_uint n h =
    let (c, s, e, digits, value, lead) = format_uint-digits n h in
    rw e (elim lead [ inl alone ↦ ground arith | inr other ↦ ground arith ])

format_uint-Lacks : (c n : ℕ) → n < 2 ^ 64 → is_digit c ≡ false → Lacks c (format_uint n)
format_uint-Lacks c n h other =
    let (d, s, e, digits, _, _) = format_uint-digits n h in
    rw e (digits-Lacks c (d ∷ s) digits other)

format_uint-Spaceless : (n : ℕ) → n < 2 ^ 64 → Spaceless (format_uint n)
format_uint-Spaceless n h =
    let (d, s, e, digits, _, _) = format_uint-digits n h in rw e (digits-Spaceless (d ∷ s) digits)

-- The three numbers as they are printed.
core : Version → Text
core v = format_uint v.major ++ b'.' ∷ (format_uint v.minor ++ b'.' ∷ format_uint v.patch)

core-All :
    (P : ℕ → Type 0) (v : Version)
    → All P (format_uint v.major)
    → All P (format_uint v.minor)
    → All P (format_uint v.patch)
    → P b'.'
    → All P (core v)
unfolding core
core-All P v a b c d =
    All-append P (format_uint v.major) _ a
      (d, All-append P (format_uint v.minor) (b'.' ∷ format_uint v.patch) b (d, c))

core-Lacks :
    (c : ℕ) (v : Version)
    → IsPrintable v
    → is_digit c ≡ false
    → (b'.' == c) ≡ false
    → Lacks c (core v)
core-Lacks c v p other dot =
    core-All _ v (format_uint-Lacks c v.major p.major other)
      (format_uint-Lacks c v.minor p.minor other) (format_uint-Lacks c v.patch p.patch other) dot

core-Spaceless : (v : Version) → IsPrintable v → Spaceless (core v)
unfolding is_space
core-Spaceless v p =
    core-All (λ d. is_space d ≡ false) v (format_uint-Spaceless v.major p.major)
      (format_uint-Spaceless v.minor p.minor) (format_uint-Spaceless v.patch p.patch) refl

parse_parts-some :
    (a b c : Text) {x y z : ℕ} (pre : List Text) (build : Text)
    → parse_numeric a ≡ some x
    → parse_numeric b ≡ some y
    → parse_numeric c ≡ some z
    → parse_parts (a ∷ b ∷ c ∷ []) pre build
      ≡ some (record { major = x; minor = y; patch = z; pre = pre; build = build })
unfolding parse_parts
parse_parts-some a b c pre build h k l = rw (parse_parts, h, k, l) refl

parse_parts-core :
    (v : Version) (pre : List Text) (build : Text)
    → IsPrintable v
    → parse_parts (split b'.' (core v)) pre build
      ≡ some
          (record { major = v.major; minor = v.minor; patch = v.patch; pre = pre; build = build })
unfolding core
parse_parts-core v pre build p =
    rw
      (
        split-append b'.' (format_uint v.major) (format_uint v.minor ++ b'.' ∷ format_uint v.patch)
            (format_uint-Lacks b'.' v.major p.major refl),
        split-append b'.' (format_uint v.minor) (format_uint v.patch)
            (format_uint-Lacks b'.' v.minor p.minor refl),
        split-none b'.' (format_uint v.patch) (format_uint-Lacks b'.' v.patch p.patch refl),
      )
      (parse_parts-some _ _ _ pre build (parse_numeric-format_uint v.major p.major)
        (parse_numeric-format_uint v.minor p.minor) (parse_numeric-format_uint v.patch p.patch))

-- The identifiers behind their dash, and the build behind its plus.
dashed : List Text → Text
dashed [] = []
dashed (s ∷ rest) = b'-' ∷ join b'.' (s ∷ rest)

plussed : Text → Text
plussed [] = []
plussed (c ∷ s) = b'+' ∷ c ∷ s

to_string-parts : (v : Version) → to_string v ≡ (core v ++ dashed v.pre) ++ plussed v.build
unfolding to_string core
to_string-parts v = ap₂ (λ a b. (core v ++ a) ++ b) (dash v.pre) (plus v.build)
  where
    dash :
        (pre : List Text)
        → (if (elim (is_empty pre) [ true ↦ false | false ↦ true ])
            then b'-' ∷ join b'.' pre
            else [])
          ≡ dashed pre
    dash [] = unfold dashed in refl
    dash (s ∷ rest) = unfold dashed in refl

    plus : (build : Text) → (if is_empty build then [] else b'+' ∷ build) ≡ plussed build
    plus [] = unfold plussed in refl
    plus (c ∷ s) = unfold plussed in refl

dashed-Lacks : (pre : List Text) → All IsIdent pre → Lacks b'+' (dashed pre)
unfolding dashed
dashed-Lacks [] p = tt
dashed-Lacks (s ∷ rest) p =
    (refl, All-join (λ d. (d == b'+') ≡ false) b'.' (s ∷ rest) refl (no_plus (s ∷ rest) p))
  where
    no_plus : (ids : List Text) → All IsIdent ids → All (Lacks b'+') ids
    no_plus [] q = tt
    no_plus (x ∷ xs) q = (q.0.no_plus, no_plus xs q.1)

cut-plussed :
    (s build : Text)
    → Lacks b'+' s
    → ((cut b'+' (s ++ plussed build)).0 ≡ s) × (or_empty (cut b'+' (s ++ plussed build)).1 ≡ build)
unfolding plussed
cut-plussed s [] p = rw (append-nil s, cut-none b'+' s p) (refl, refl)
cut-plussed s (c ∷ build) p = rw (cut-append b'+' s (c ∷ build) p) (refl, refl)

dots : (ids : List Text) → All IsIdent ids → All (Lacks b'.') ids
dots [] q = tt
dots (x ∷ xs) q = (q.0.no_dot, dots xs q.1)

has_empty-none :
    (s : Text) (rest : List Text) → All IsIdent (s ∷ rest) → has_empty (s ∷ rest) ≡ false
has_empty-none s [] q = ground (arith, q.0.nonempty)
has_empty-none s (x ∷ xs) q = ground (arith, q.0.nonempty, has_empty-none x xs q.1)

joined_nonempty :
    (s : Text) (rest : List Text) → is_empty s ≡ false → is_empty (join b'.' (s ∷ rest)) ≡ false
unfolding join
joined_nonempty [] rest h = cc
joined_nonempty (c ∷ s) [] h = refl
joined_nonempty (c ∷ s) (x ∷ rest) h = refl

parse_pre-none : (s build : Text) → parse_pre s none build ≡ parse_parts (split b'.' s) [] build
unfolding parse_pre
parse_pre-none s build = refl

parse_pre-some :
    (s pre build : Text) (ids : List Text)
    → is_empty pre ≡ false
    → split b'.' pre ≡ ids
    → has_empty ids ≡ false
    → parse_pre s (some pre) build ≡ parse_parts (split b'.' s) ids build
parse_pre-some s pre build ids h e k = rw (← e) (step s pre build h (rw e k))
  where
    step :
        (s pre build : Text)
        → is_empty pre ≡ false
        → has_empty (split b'.' pre) ≡ false
        → parse_pre s (some pre) build ≡ parse_parts (split b'.' s) (split b'.' pre) build
    step s pre build h k = unfold parse_pre in rw (h, k) refl

-- The identifiers read back.
parse_pre-dashed :
    (v : Version) (pre : List Text) (build : Text)
    → IsPrintable v
    → All IsIdent pre
    → parse_pre (cut b'-' (core v ++ dashed pre)).0 (cut b'-' (core v ++ dashed pre)).1 build
      ≡ some
          (record { major = v.major; minor = v.minor; patch = v.patch; pre = pre; build = build })
unfolding dashed
parse_pre-dashed v [] build p q =
    rw (append-nil (core v), cut-none b'-' (core v) (core-Lacks b'-' v p refl refl))
      (parse_pre-none (core v) build ∙ parse_parts-core v [] build p)
parse_pre-dashed v (s ∷ rest) build p q =
    let ids = split-join b'.' s rest q.0.no_dot (dots rest q.1) in
    rw (cut-append b'-' (core v) (join b'.' (s ∷ rest)) (core-Lacks b'-' v p refl refl)) (
      parse_pre-some (core v) (join b'.' (s ∷ rest)) build (s ∷ rest)
        (joined_nonempty s rest q.0.nonempty) ids (has_empty-none s rest q)
      ∙ parse_parts-core v (s ∷ rest) build p)

parse_body_lem :
    (s : Text)
    → is_empty s ≡ false
    → parse_body s
      ≡ parse_pre (cut b'-' (cut b'+' s).0).0 (cut b'-' (cut b'+' s).0).1 (or_empty (cut b'+' s).1)
unfolding parse_body
parse_body_lem [] h = cc
parse_body_lem (c ∷ s) h = refl

printed_nonempty :
    (v : Version) (s u : Text) → IsPrintable v → is_empty ((core v ++ s) ++ u) ≡ false
unfolding core
printed_nonempty v s u p = let (c, r, e, _, _, _) = format_uint-digits v.major p.major in rw e refl

parse_body-printed :
    (v : Version)
    → IsPrintable v
    → parse_body ((core v ++ dashed v.pre) ++ plussed v.build) ≡ some v
parse_body-printed v p =
    let no_plus =
      All-append (λ d. (d == b'+') ≡ false) (core v) (dashed v.pre) (core-Lacks b'+' v p refl refl)
        (dashed-Lacks v.pre p.pre) in
    let (rest, build) = cut-plussed (core v ++ dashed v.pre) v.build no_plus in
    parse_body_lem _ (printed_nonempty v (dashed v.pre) (plussed v.build) p)
    ∙ rw (rest, build) (parse_pre-dashed v v.pre v.build p p.pre)

digit_first :
    (c : ℕ) (s : Text) → is_digit c ≡ true → trim_byte b'=' (trim_byte b'v' (c ∷ s)) ≡ c ∷ s
unfolding trim_byte
digit_first c s h = ground arith

trimmed :
    (v : Version) (s u : Text)
    → IsPrintable v
    → trim_byte b'=' (trim_byte b'v' ((core v ++ s) ++ u)) ≡ (core v ++ s) ++ u
unfolding core
trimmed v s u p =
    let (c, r, e, digits, _, _) = format_uint-digits v.major p.major in
    rw e (digit_first c _ (unfold all_digits in ground arith))

printed-Spaceless :
    (v : Version) → IsPrintable v → Spaceless ((core v ++ dashed v.pre) ++ plussed v.build)
printed-Spaceless v p =
    All-append (λ d. is_space d ≡ false) (core v ++ dashed v.pre) (plussed v.build)
      (All-append (λ d. is_space d ≡ false) (core v) (dashed v.pre) (core-Spaceless v p)
        (identifiers v.pre p.pre))
      (builds v.build p.build)
  where
    words : (ids : List Text) → All IsIdent ids → All Spaceless ids
    words [] q = tt
    words (x ∷ xs) q = (q.0.no_space, words xs q.1)

    identifiers : (ids : List Text) → All IsIdent ids → Spaceless (dashed ids)
    identifiers [] q = unfold dashed in tt
    identifiers (x ∷ xs) q =
        unfold dashed is_space in
        (refl, All-join (λ d. is_space d ≡ false) b'.' (x ∷ xs) refl (words (x ∷ xs) q))

    builds : (build : Text) → Spaceless build → Spaceless (plussed build)
    builds [] q = unfold plussed in tt
    builds (c ∷ s) q = unfold plussed is_space in (refl, q)

parse_lem : (s : Text) → parse s ≡ parse_body (trim_byte b'=' (trim_byte b'v' (trim_space s)))
unfolding parse
parse_lem s = refl

-- `Parse` reads back what `String` prints, build metadata included, for 64-bit numbers, identifiers
-- that are not empty and have no dot, plus or space, and build metadata without spaces.
pub parse-to_string : (v : Version) → IsPrintable v → parse (to_string v) ≡ some v
parse-to_string v p =
    parse_lem (to_string v)
    ∙ rw
        (
          to_string-parts v,
          trim_space-Spaceless _ (printed-Spaceless v p),
          trimmed v (dashed v.pre) (plussed v.build) p,
        )
        (parse_body-printed v p)
