-- ===== src/Semver/Range/Best.antt =====
-- `MaxSatisfying` of internal/semver/range.go picks a highest admitted version, and finds one
-- whenever the list holds one.
use Prim.Native.Nat.{Ordering, lt, eq, gt}
use keyholders.Base.{
  ◌≡◌, ◌≢◌, refl, sym, ◌∙◌, ◌⊎◌, inl, inr, Bool, true, false, if◌then◌else◌, List, [], ◌∷◌, Option,
  none, some, arith, Bool-cases, In, All, subst,
}
use keyholders.Semver.Version.{Version, compare}
use keyholders.Semver.Version.Order.{compare-swap, compare_self}
use keyholders.Semver.Version.Total.{IsCanonical, compare-le_trans}
use keyholders.Semver.Range.{Range, satisfies, max_from, max_satisfying}

-- `b` is admitted, stands in the list or was the best before, and nothing admitted ranks above it.
record IsBest (r : Range) (best : Option Version) (versions : List Version) (b : Version)
    : Type 0 where
  admitted : satisfies r b ≡ true
  member : In b versions ⊎ (best ≡ some b)
  highest : (v : Version) → In v versions → satisfies r v ≡ true → compare v b ≢ gt
  above_old : (o : Version) → best ≡ some o → compare o b ≢ gt

-- The best so far after one more version.
abbrev better : Option Version → Version → Option Version
better none v = some v
better (some b) v = elim (compare v b) [ gt ↦ some v | _ ↦ some b ]

max_from-cons :
    (r : Range) (best : Option Version) (v : Version) (versions : List Version)
    → max_from best (v ∷ versions) r
      ≡ max_from (if satisfies r v then better best v else best) versions r
unfolding max_from
max_from-cons r none v versions = refl
max_from-cons r (some b) v versions = refl

-- The best before the loop is admitted and canonical.
abbrev IsCandidate : Range → Option Version → Type 0
IsCandidate r best = (o : Version) → best ≡ some o → IsCanonical o × (satisfies r o ≡ true)

some≡some : {a b : Version} → some a ≡ some b → a ≡ b
some≡some h = cc

none≢some : {a : Version} → none ≡ some a → ⊥
none≢some h = cc

-- The version before the list ranks no higher than the result, nor do those in the list.
highest-cons :
    (r : Range) (v : Version) (versions : List Version) (b : Version)
    → compare v b ≢ gt
    → ((w : Version) → In w versions → satisfies r w ≡ true → compare w b ≢ gt)
    → (w : Version) → In w (v ∷ versions)
    → satisfies r w ≡ true
    → compare w b ≢ gt
highest-cons r v versions b first rest w In.head h = first
highest-cons r v versions b first rest w (In.tail m) h = rest w m h

keep-IsBest :
    (r : Range) (o v : Version) (versions : List Version) (b : Version)
    → IsCanonical o
    → IsCanonical v
    → IsCanonical b
    → compare v o ≢ gt
    → IsBest r (some o) versions b
    → IsBest r (some o) (v ∷ versions) b
keep-IsBest r o v versions b co cv cb low i = record {
  admitted = i.admitted;
  member = elim i.member [ inl m ↦ inl (In.tail m) | inr e ↦ inr e ];
  highest =
      highest-cons r v versions b (compare-le_trans v o b cv co cb low (i.above_old o refl))
        i.highest;
  above_old = i.above_old;
}

take-IsBest :
    (r : Range) (best : Option Version) (v : Version) (versions : List Version) (b : Version)
    → ((o : Version) → best ≡ some o → compare o b ≢ gt)
    → IsBest r (some v) versions b
    → IsBest r best (v ∷ versions) b
take-IsBest r best v versions b old i = record {
  admitted = i.admitted;
  member = elim i.member [
    | inl m ↦ inl (In.tail m)
    | inr e ↦ inl (subst (λ x. In b (x ∷ versions)) (sym (some≡some e)) In.head)
  ];
  highest = highest-cons r v versions b (i.above_old v refl) i.highest;
  above_old = old;
}

swapped : (o v : Version) → compare v o ≡ gt → compare o v ≡ gt → ⊥
swapped o v h k = cc (compare-swap v o)

better-cases :
    (o v : Version)
    → ((compare v o ≡ gt) × (better (some o) v ≡ some v))
      ⊎ ((compare v o ≢ gt) × (better (some o) v ≡ some o))
better-cases o v = go (compare v o)
  where
    go :
        (c : Ordering)
        → ((c ≡ gt) × (◌≡◌ {A = Option Version} (elim c [ gt ↦ some v | _ ↦ some o ]) (some v)))
          ⊎ ((c ≢ gt) × (◌≡◌ {A = Option Version} (elim c [ gt ↦ some v | _ ↦ some o ]) (some o)))
    go gt = inl (refl, refl)
    go lt = inr (λ e. cc, refl)
    go eq = inr (λ e. cc, refl)

step-IsBest :
    (r : Range) (best : Option Version) (v : Version) (versions : List Version) (b : Version)
    → IsCanonical v
    → IsCanonical b
    → IsCandidate r best
    → IsBest r (better best v) versions b
    → IsBest r best (v ∷ versions) b
step-IsBest r none v versions b cv cb cand i =
    take-IsBest r none v versions b (λ o e. absurd (none≢some e)) i
step-IsBest r (some o) v versions b cv cb cand i =
    let co = (cand o refl).0 in
    elim (better-cases o v) [
      | inl (above, e) ↦
          let taken = subst (λ x. IsBest r x versions b) e i in
          let low = λ (k : compare o v ≡ gt). swapped o v above k in
          take-IsBest r (some o) v versions b
            (λ p k.
              subst (λ x. compare x b ≢ gt) (some≡some k)
                (compare-le_trans o v b co cv cb low (taken.above_old v refl)))
            taken
      | inr (low, e) ↦
          keep-IsBest r o v versions b co cv cb low (subst (λ x. IsBest r x versions b) e i)
    ]

skip-IsBest :
    (r : Range) (best : Option Version) (v : Version) (versions : List Version) (b : Version)
    → satisfies r v ≡ false
    → IsBest r best versions b
    → IsBest r best (v ∷ versions) b
skip-IsBest r best v versions b out i = record {
  admitted = i.admitted;
  member = elim i.member [ inl m ↦ inl (In.tail m) | inr e ↦ inr e ];
  highest = λ w m h. skips w m h;
  above_old = i.above_old;
}
  where
    skips : (w : Version) → In w (v ∷ versions) → satisfies r w ≡ true → compare w b ≢ gt
    skips w In.head h = λ g. cc
    skips w (In.tail m) h = i.highest w m h

IsCandidate-some :
    (r : Range) (v : Version) → IsCanonical v → satisfies r v ≡ true → IsCandidate r (some v)
IsCandidate-some r v cv s o e =
    (subst IsCanonical (some≡some e) cv, subst (λ x. satisfies r x ≡ true) (some≡some e) s)

better-IsCandidate :
    (r : Range) (best : Option Version) (v : Version)
    → IsCanonical v
    → satisfies r v ≡ true
    → IsCandidate r best
    → IsCandidate r (better best v)
better-IsCandidate r none v cv s cand = IsCandidate-some r v cv s
better-IsCandidate r (some b) v cv s cand = elim (better-cases b v) [
  | inl (above, e) ↦ subst (IsCandidate r) (sym e) (IsCandidate-some r v cv s)
  | inr (low, e) ↦ subst (IsCandidate r) (sym e) cand
]

stays :
    (best : Option Version) (v : Version) (b : Bool)
    → (if b then better best v else best) ≡ none
    → (best ≡ none) × (b ≡ false)
stays best v false e = (e, refl)
stays none v true e = cc
stays (some o) v true e = ground arith

met :
    (r : Range) (v : Version) (versions : List Version)
    → satisfies r v ≡ false
    → ((w : Version) → In w versions → satisfies r w ≡ false)
    → (w : Version) → In w (v ∷ versions)
    → satisfies r w ≡ false
met r v versions out rest w In.head = out
met r v versions out rest w (In.tail m) = rest w m

-- A loop that ends with nothing began with nothing and met nothing.
max_from-none :
    (r : Range) (best : Option Version) (versions : List Version)
    → max_from best versions r ≡ none
    → (best ≡ none) × ((v : Version) → In v versions → satisfies r v ≡ false)
max_from-none r best [] h = (unfold max_from in h, λ v m. elim m [ ])
max_from-none r best (v ∷ versions) h =
    let k = sym (max_from-cons r best v versions) ∙ h in
    let (e, rest) = max_from-none r (if satisfies r v then better best v else best) versions k in
    let (old, out) = stays best v (satisfies r v) e in (old, λ w m. met r v versions out rest w m)

max_from-IsBest :
    (r : Range) (best : Option Version) (versions : List Version) (b : Version)
    → All IsCanonical versions
    → IsCandidate r best
    → max_from best versions r ≡ some b
    → IsCanonical b × IsBest r best versions b
max_from-IsBest r best [] b c cand h =
    let e : best ≡ some b = unfold max_from in h in
    (
      (cand b e).0,
      record {
        admitted = (cand b e).1;
        member = inr e;
        highest = λ v m k. elim m [ ];
        above_old =
            λ o k. subst (λ x. compare x b ≢ gt) (some≡some (sym e ∙ k)) (λ g. cc (compare_self b));
      },
    )
max_from-IsBest r best (v ∷ versions) b c cand h = elim (Bool-cases (satisfies r v)) [
  | inl yes' ↦
      let k : max_from (better best v) versions r ≡ some b =
        rw yes' at (sym (max_from-cons r best v versions) ∙ h) in
      let (cb, i) =
        max_from-IsBest r (better best v) versions b c.1 (better-IsCandidate r best v c.0 yes' cand)
          k in
      (cb, step-IsBest r best v versions b c.0 cb cand i)
  | inr no' ↦
      let k : max_from best versions r ≡ some b =
        rw no' at (sym (max_from-cons r best v versions) ∙ h) in
      let (cb, i) = max_from-IsBest r best versions b c.1 cand k in
      (cb, skip-IsBest r best v versions b no' i)
]

-- On versions without leading zeros in their identifiers, the version that `MaxSatisfying` returns
-- is in the list and admitted, and no admitted version of the list ranks above it; if it returns
-- none, the list holds no admitted version.
pub max_satisfying_best :
    (versions : List Version) (r : Range)
    → All IsCanonical versions
    → ((b : Version)
        → max_satisfying versions r ≡ some b
        → In b versions
          × (satisfies r b ≡ true)
          × ((v : Version) → In v versions → satisfies r v ≡ true → compare v b ≢ gt))
      × (max_satisfying versions r ≡ none → (v : Version) → In v versions → satisfies r v ≡ false)
unfolding max_satisfying
max_satisfying_best versions r c = (
  λ b h.
      let (_, i) = max_from-IsBest r none versions b c (λ o e. absurd (none≢some e)) h in
      (elim i.member [ inl m ↦ m | inr e ↦ absurd (none≢some e) ], i.admitted, i.highest),
  λ h v m. (max_from-none r none versions h).1 v m,
)
