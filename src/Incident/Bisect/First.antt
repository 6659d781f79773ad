-- ===== src/Incident/Bisect/First.antt =====
-- The release that internal/incident/bisect.go names is the earliest affected one.
use keyholders.Base.{
  Read, ◌≤◌, ◌≡◌, ◌↔◌, refl, sym, ap, subst, ◌∙◌, Bool, true, false, inl, inr, Bool-cases,
  Option-cases, List, [], ◌∷◌, Option, none, some, In, In-sort_by, In-cons, All-In, Ascending,
  sort_by, sort_by-Ascending, Text, Table, arith,
}
use keyholders.Incident.Bisect.{
  Release, Introduction, Error, Outcome, BisectSource, is_affected, earlier, first_affected,
  diff_dependencies, introduce, bisect,
}

-- What the walk stops at.
record IsFirst (affected : Table Bool) (timeline : List Release) (first : Release) : Type 0 where
  member : In first timeline
  hit : is_affected affected first.version ≡ true
  least :
      (r : Release)
      → In r timeline
      → is_affected affected r.version ≡ true
      → first.published_at ≤ r.published_at

first_affected-IsFirst :
    (affected : Table Bool) (before previous : Option Release) (timeline : List Release)
    (first : Release)
    → Ascending (λ r. r.published_at) timeline
    → first_affected affected before timeline ≡ some (previous, first)
    → IsFirst affected timeline first
unfolding first_affected
first_affected-IsFirst affected before previous [] first up h = cc
first_affected-IsFirst affected before previous (r ∷ timeline) first up h =
    elim (Bool-cases (is_affected affected r.version)) [
      | inl here ↦
          let e : r ≡ first = ground (arith, h, here) in
          subst (λ (f : Release). IsFirst affected (r ∷ timeline) f) e
            (record { member = In.head; hit = here; least = λ q m k. earliest q m })
      | inr other ↦
          let rest =
            first_affected-IsFirst affected (some r) previous timeline first up.1
              (ground (arith, h, other)) in
          record {
            member = In.tail rest.member;
            hit = rest.hit;
            least = λ q m k. passed q m k rest other;
          }
    ]
  where
    earliest : (q : Release) → In q (r ∷ timeline) → r.published_at ≤ q.published_at
    earliest q m = elim (In-cons m) [
      | inl e ↦ rw e (omega arith)
      | inr k ↦ All-In (λ (p : Release). r.published_at ≤ p.published_at) k up.0
    ]

    passed :
        (q : Release)
        → In q (r ∷ timeline)
        → is_affected affected q.version ≡ true
        → IsFirst affected timeline first
        → is_affected affected r.version ≡ false
        → first.published_at ≤ q.published_at
    passed q m k rest other = elim (In-cons m) [ inl e ↦ absurd (cc) | inr n ↦ rest.least q n k ]

first_affected-none :
    (affected : Table Bool) (before : Option Release) (timeline : List Release) (r : Release)
    → In r timeline
    → first_affected affected before timeline ≡ none
    → is_affected affected r.version ≡ false
unfolding first_affected
first_affected-none affected before [] r m h = elim m [ ]
first_affected-none affected before (q ∷ timeline) r m h = elim (In-cons m) [
  | inl e ↦ rw e (ground (arith, h))
  | inr n ↦ first_affected-none affected (some q) timeline r n (ground (arith, h))
]

walked :
    (src : BisectSource) (advisory_id name : Text) (timeline : List Release) (affected : Table Bool)
    → src.timeline name ≡ Read.got timeline
    → src.affected_versions advisory_id name ≡ Read.got affected
    → bisect src advisory_id name
      ≡ introduce src advisory_id name (first_affected affected none (sort_by earlier timeline))
unfolding bisect
walked src advisory_id name timeline affected a b = ground (arith, a, b)

introduce-first :
    (src : BisectSource) (advisory_id name : Text) (previous : Option Release) (first : Release)
    (intro : Introduction)
    → introduce src advisory_id name (some (previous, first)) ≡ Outcome.ok intro
    → (first.version ≡ intro.first_affected) × (first.published_at ≡ intro.published_at)
unfolding introduce
introduce-first src advisory_id name none first intro h = (ground (arith, h), ground (arith, h))
introduce-first src advisory_id name (some previous) first intro h =
    (ground (arith, h), ground (arith, h))

-- Where the source answers both reads and an introduction is returned, it names an affected release
-- of the timeline, and no affected release was published before it.
pub bisect-Earliest :
    (src : BisectSource) (advisory_id name : Text) (timeline : List Release) (affected : Table Bool)
    (intro : Introduction)
    → src.timeline name ≡ Read.got timeline
    → src.affected_versions advisory_id name ≡ Read.got affected
    → bisect src advisory_id name ≡ Outcome.ok intro
    → (first : Release) × In first timeline
      × (first.version ≡ intro.first_affected)
      × (first.published_at ≡ intro.published_at)
      × (is_affected affected intro.first_affected ≡ true)
      × ((r : Release)
          → In r timeline
          → is_affected affected r.version ≡ true
          → intro.published_at ≤ r.published_at)
bisect-Earliest src advisory_id name timeline affected intro a b h =
    let found = first_affected affected none (sort_by earlier timeline) in
    let ran = sym (walked src advisory_id name timeline affected a b) ∙ h in
    elim (Option-cases found) [
      | inl none_there ↦ absurd (
          refused (subst (λ o. introduce src advisory_id name o ≡ Outcome.ok intro) none_there ran))
      | inr ((previous, first), e) ↦
          let i =
            first_affected-IsFirst affected none previous (sort_by earlier timeline) first
              (sort_by-Ascending (λ (r : Release). r.published_at) timeline) e in
          let (v, p) =
            introduce-first src advisory_id name previous first intro
              (subst (λ o. introduce src advisory_id name o ≡ Outcome.ok intro) e ran) in
          (
            first,
            (In-sort_by earlier timeline).0 i.member,
            v,
            p,
            subst (λ w. is_affected affected w ≡ true) v i.hit,
            λ r m k.
                subst (λ n. n ≤ r.published_at) p (i.least r ((In-sort_by earlier timeline).1 m) k),
          )
    ]
  where
    refused : introduce src advisory_id name none ≡ Outcome.ok intro → ⊥
    refused e = unfold introduce in cc

-- The error of no affected version is not that of a diff.
introduce-some :
    (src : BisectSource) (advisory_id name : Text) (previous : Option Release) (first : Release)
    → introduce src advisory_id name (some (previous, first))
      ≡ Outcome.err (Error.affects_no_version name advisory_id)
    → ⊥
unfolding introduce diff_dependencies
introduce-some src advisory_id name none first h = cc
introduce-some src advisory_id name (some previous) first h = ground (arith, h)

-- Where the source answers both reads, the error that no version is affected is returned exactly
-- when no release of the timeline is affected.
pub bisect-unaffected :
    (src : BisectSource) (advisory_id name : Text) (timeline : List Release) (affected : Table Bool)
    → src.timeline name ≡ Read.got timeline
    → src.affected_versions advisory_id name ≡ Read.got affected
    → (bisect src advisory_id name ≡ Outcome.err (Error.affects_no_version name advisory_id))
      ↔ ((r : Release) → In r timeline → is_affected affected r.version ≡ false)
bisect-unaffected src advisory_id name timeline affected a b =
    let found = first_affected affected none (sort_by earlier timeline) in
    let ran = walked src advisory_id name timeline affected a b in
    elim (Option-cases found) [
      | inl none_there ↦ (
        λ h r m.
            first_affected-none affected none (sort_by earlier timeline) r
              ((In-sort_by earlier timeline).1 m) none_there,
        λ h. ran ∙ ap (λ o. introduce src advisory_id name o) none_there ∙ refused,
      )
      | inr ((previous, first), e) ↦
          let i =
            first_affected-IsFirst affected none previous (sort_by earlier timeline) first
              (sort_by-Ascending (λ (r : Release). r.published_at) timeline) e in
          (
            λ h r m. absurd (
                introduce-some src advisory_id name previous first
                  (sym (ran ∙ ap (λ o. introduce src advisory_id name o) e) ∙ h)),
            λ h. absurd (clash first i.hit (h first ((In-sort_by earlier timeline).0 i.member))),
          )
    ]
  where
    refused :
        introduce src advisory_id name none
        ≡ Outcome.err (Error.affects_no_version name advisory_id)
    refused = unfold introduce in refl

    clash :
        (f : Release)
        → is_affected affected f.version ≡ true
        → is_affected affected f.version ≡ false
        → ⊥
    clash f p q = ground (arith, p, q)
