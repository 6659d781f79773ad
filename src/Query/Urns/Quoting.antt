-- ===== src/Query/Urns/Quoting.antt =====
-- No accepted name can end the quoted value that internal/query/expander.go puts it into.
use mathlib.Core.List.{append_assoc}
use keyholders.Base.{
  ==_iff, length, ℕ, ◌≡◌, refl, sym, ap, subst, ◌∙◌, inl, inr, Bool-cases, Bool, true, false, ◌==◌,
  List, [], ◌∷◌, ◌++◌, Option, none, some, Text, bytes, All, filter, cut, split, has_prefix, drop,
  arith,
}
use keyholders.Base.Cutting.{Lacks, cut-eq, All-append, split-append}
use keyholders.Query.Urns.{
  every, some_of, name_char, version_char, both_parts, name_at_version, scope_then, scoped,
  npm_prefix, npm_urn, npm_package_urn, quote, quote_rest, quote_all,
}

-- The text between the quotes and around them.
abbrev pub pieces_rest : List Text → List Text
pieces_rest [] = [] ∷ []
pieces_rest (v ∷ values) = bytes ", " ∷ v ∷ pieces_rest values

abbrev pub pieces : List Text → List Text
pieces [] = [] ∷ []
pieces (v ∷ values) = [] ∷ v ∷ pieces_rest values

split-quote :
    (before v after : Text)
    → Lacks b'\'' before
    → Lacks b'\'' v
    → split b'\'' (before ++ (quote v ++ after)) ≡ before ∷ v ∷ split b'\'' after
split-quote before v after b l =
    split-append b'\'' before ((v ++ b'\'' ∷ []) ++ after) b
    ∙ ap (λ ps. before ∷ ps)
        (ap (split b'\'') (append_assoc v (b'\'' ∷ []) after) ∙ split-append b'\'' v after l)

split-quote_rest :
    (values : List Text)
    → All (Lacks b'\'') values
    → split b'\'' (quote_rest values) ≡ pieces_rest values
unfolding quote_rest split
split-quote_rest [] h = refl
split-quote_rest (v ∷ values) h =
    split-quote (bytes ", ") v (quote_rest values) (refl, (refl, tt)) h.0
    ∙ ap (λ ps. bytes ", " ∷ v ∷ ps) (split-quote_rest values h.1)

every-Lacks : (p : ℕ → Bool) (c : ℕ) (s : Text) → p c ≡ false → every p s ≡ true → Lacks c s
every-Lacks p c [] h k = tt
every-Lacks p c (d ∷ s) h k = (
  elim (Bool-cases (d == c)) [
    | inr other ↦ other
    | inl same ↦ let e = ap p ((==_iff d c).0 same) in ground (arith, e, h, k)
  ],
  every-Lacks p c s h (ground arith),
)

some_of-Lacks : (p : ℕ → Bool) (c : ℕ) (s : Text) → p c ≡ false → some_of p s ≡ true → Lacks c s
some_of-Lacks p c [] h k = tt
some_of-Lacks p c (d ∷ s) h k = every-Lacks p c (d ∷ s) h k

cut-Lacks :
    (q c : ℕ) (s before behind : Text)
    → (c == q) ≡ false
    → cut c s ≡ (before, some behind)
    → Lacks q before
    → Lacks q behind
    → Lacks q s
cut-Lacks q c s before behind n h a b =
    let e = cut-eq c s behind (ap (λ p. p.1) h) ∙ ap (λ p. p.0 ++ c ∷ behind) h in
    subst (Lacks q) (sym e) (All-append (λ d. (d == q) ≡ false) before (c ∷ behind) a (n, b))

both_parts-Lacks : (s : Text) → name_at_version s ≡ true → Lacks b'\'' s
unfolding name_at_version
both_parts-Lacks s h = lacks (cut b'@' s) refl h
  where
    lacks :
        (parts : Text × Option Text) → cut b'@' s ≡ parts → both_parts parts ≡ true → Lacks b'\'' s
    lacks (name, none) e k = cc
    lacks (name, some version) e k =
        cut-Lacks b'\'' b'@' s name version refl e
          (some_of-Lacks name_char b'\'' name refl (ground arith))
          (some_of-Lacks version_char b'\'' version refl (ground arith))

scoped-Lacks :
    (rest : Text → Bool) (s : Text)
    → ((u : Text) → rest u ≡ true → Lacks b'\'' u)
    → scoped rest s ≡ true
    → Lacks b'\'' s
unfolding scoped
scoped-Lacks rest [] f h = tt
scoped-Lacks rest (c ∷ s) f h = elim (Bool-cases (c == b'@')) [
  | inr plain ↦ f (c ∷ s) (ground (arith, h, plain))
  | inl at ↦ (ground (arith, at), lacks (cut b'/' s) refl (ground (arith, h, at)))
]
  where
    lacks :
        (parts : Text × Option Text)
        → cut b'/' s ≡ parts
        → scope_then rest parts ≡ true
        → Lacks b'\'' s
    lacks (scope, none) e k = cc
    lacks (scope, some behind) e k =
        cut-Lacks b'\'' b'/' s scope behind refl e
          (some_of-Lacks name_char b'\'' scope refl (ground arith)) (f behind (ground arith))

prefix-Lacks :
    (p u : Text)
    → has_prefix p u ≡ true
    → Lacks b'\'' p
    → Lacks b'\'' (drop (length p) u)
    → Lacks b'\'' u
unfolding has_prefix
prefix-Lacks [] u h a b = b
prefix-Lacks (c ∷ p) [] h a b = tt
prefix-Lacks (c ∷ p) (d ∷ u) h a b =
    (ground (arith, h, a.0), prefix-Lacks p u (ground (arith, h)) a.1 b)

pub npm_urn-Lacks : (u : Text) → npm_urn u ≡ true → Lacks b'\'' u
unfolding npm_urn
npm_urn-Lacks u h =
    prefix-Lacks npm_prefix u (ground arith)
      (refl, (refl, (refl, (refl, (refl, (refl, (refl, (refl, tt))))))))
      (scoped-Lacks name_at_version (drop 8 u) both_parts-Lacks (ground arith))

pub npm_package_urn-Lacks : (u : Text) → npm_package_urn u ≡ true → Lacks b'\'' u
unfolding npm_package_urn
npm_package_urn-Lacks u h =
    prefix-Lacks npm_prefix u (ground arith)
      (refl, (refl, (refl, (refl, (refl, (refl, (refl, (refl, tt))))))))
      (scoped-Lacks (some_of name_char) (drop 8 u) (λ s k. some_of-Lacks name_char b'\'' s refl k)
        (ground arith))

pub All-Lacks :
    (pattern : Text → Bool)
    → ((u : Text) → pattern u ≡ true → Lacks b'\'' u)
    → (urns : List Text) → All (Lacks b'\'') (filter pattern urns)
All-Lacks pattern safe [] = tt
All-Lacks pattern safe (u ∷ urns) = elim (Bool-cases (pattern u)) [
  | inl yes_u ↦ rw yes_u (safe u yes_u, All-Lacks pattern safe urns)
  | inr no_u ↦ rw no_u (All-Lacks pattern safe urns)
]

pub split-quote_all :
    (values : List Text) → All (Lacks b'\'') values → split b'\'' (quote_all values) ≡ pieces values
unfolding quote_all split
split-quote_all [] h = refl
split-quote_all (v ∷ values) h =
    split-quote [] v (quote_rest values) tt h.0
    ∙ ap (λ ps. [] ∷ v ∷ ps) (split-quote_rest values h.1)

-- Cut at the quotes, the text for the names of a list that a pattern accepts, of versions or of
-- packages, is exactly these names, with nothing before the first and after the last and a comma
-- with a space between two.
pub split-quote_all_accepted :
    (urns : List Text)
    → (split b'\'' (quote_all (filter npm_urn urns)) ≡ pieces (filter npm_urn urns))
      × (split b'\'' (quote_all (filter npm_package_urn urns))
          ≡ pieces (filter npm_package_urn urns))
split-quote_all_accepted urns = (
  split-quote_all (filter npm_urn urns) (All-Lacks npm_urn npm_urn-Lacks urns),
  split-quote_all (filter npm_package_urn urns)
      (All-Lacks npm_package_urn npm_package_urn-Lacks urns),
)
