-- ===== src/Resolve/Windows/Steps.antt =====
-- The loop of internal/resolve/windows.go: every instant from the first publish on lies in a window,
-- and that window names a highest version published by then.
use Prim.Native.Nat.{gt}
use mathlib.Core.List.{append_assoc}
use keyholders.Base.{
  ℕ, ◌≤◌, ◌<◌, ◌≡◌, ◌≢◌, refl, sym, ap, ◌∙◌, subst, ◌⊎◌, inl, inr, true, false, ltb, ltb→lt,
  if◌then◌else◌, List, [], ◌∷◌, ◌++◌, arith, Bool-cases, In, All, All-In, All-weaken, In-cons,
  In-cons_of, In-singleton,
}
use keyholders.Query.Interval.{open_interval}
use keyholders.Semver.Version.{compare}
use keyholders.Semver.Version.Order.{compare_self, compare-swap}
use keyholders.Semver.Version.Total.{IsCanonical, compare-le_trans}
use keyholders.Resolve.Windows.{Candidate, Window, above, window, extend}
use keyholders.Resolve.Windows.Order.{Ascending}

-- The loop without its accumulator.
unfoldable pub steps : Candidate → List Candidate → List Window
steps best [] = window best open_interval ∷ []
steps best (c ∷ rest) =
    let keep = steps best rest in
    let step = window best c.published ∷ steps c rest in if above c best then step else keep

pub extend-steps :
    (closed : List Window) (best : Candidate) (rest : List Candidate)
    → extend closed best rest ≡ closed ++ steps best rest
unfolding extend steps
extend-steps closed best [] = refl
extend-steps closed best (c ∷ rest) = elim (Bool-cases (above c best)) [
  | inl up ↦ rw up (
      extend-steps (closed ++ window best c.published ∷ []) c rest
      ∙ append_assoc closed (window best c.published ∷ []) (steps c rest))
  | inr low ↦ rw low (extend-steps closed best rest)
]

-- `c` is what an install at the instant takes among the candidates.
pub record Takes (cs : List Candidate) (t : ℕ) (c : Candidate) : Type 0 where
  pub member : In c cs
  pub published : c.published ≤ t
  pub highest : (d : Candidate) → In d cs → d.published ≤ t → compare d.version c.version ≢ gt

abbrev pub Canonical : List Candidate → Type 0
Canonical cs = All (λ c. IsCanonical c.version) cs

-- Some window holds the instant and names what an install takes.
pub record Answers (cs : List Candidate) (ws : List Window) (t : ℕ) : Type 0 where
  pub window : Window
  pub member : In window ws
  pub starts : window.from ≤ t
  pub ends : t < window.to
  pub taken : Candidate
  pub names : window.version ≡ taken.raw
  pub takes : Takes cs t taken

swapped : (c best : Candidate) → above c best ≡ true → compare best.version c.version ≡ gt → ⊥
swapped c best up e = ground (arith, compare-swap c.version best.version)

lowered : (c best : Candidate) → above c best ≡ false → compare c.version best.version ≡ gt → ⊥
lowered c best low e = ground arith

above-cases :
    (c best : Candidate)
    → ((above c best ≡ true) × (compare best.version c.version ≢ gt))
      ⊎ ((above c best ≡ false) × (compare c.version best.version ≢ gt))
above-cases c best = elim (Bool-cases (above c best)) [
  | inl up ↦ inl (up, λ e. swapped c best up e)
  | inr low ↦ inr (low, λ e. lowered c best low e)
]

-- A candidate ranked no higher than a member changes nothing.
Takes-skip :
    (best c : Candidate) (rest : List Candidate) (t : ℕ) (x : Candidate)
    → Canonical (best ∷ c ∷ rest)
    → compare c.version best.version ≢ gt
    → best.published ≤ t
    → Takes (best ∷ rest) t x
    → Takes (best ∷ c ∷ rest) t x
Takes-skip best c rest t x can low h k =
    let cx = All-In (λ d. IsCanonical d.version) k.member (can.0, can.1.1) in
    record {
      member = elim (In-cons k.member) [
        | inl e ↦ In-cons_of (c ∷ rest) (inl e)
        | inr m ↦ In.tail (In.tail m)
      ];
      published = k.published;
      highest = λ d m l. elim (In-cons m) [
        | inl e ↦ k.highest d (In-cons_of rest (inl e)) l
        | inr n ↦ elim (In-cons n) [
          | inl e ↦
              subst (λ y. compare y.version x.version ≢ gt) (sym e)
                (compare-le_trans c.version best.version x.version can.1.0 can.0 cx low
                  (k.highest best In.head h))
          | inr o ↦ k.highest d (In.tail o) l
        ]
      ];
    }

Takes-step :
    (best c : Candidate) (rest : List Candidate) (t : ℕ) (x : Candidate)
    → Canonical (best ∷ c ∷ rest)
    → compare best.version c.version ≢ gt
    → c.published ≤ t
    → Takes (c ∷ rest) t x
    → Takes (best ∷ c ∷ rest) t x
Takes-step best c rest t x can low h k =
    let cx = All-In (λ d. IsCanonical d.version) k.member can.1 in
    record {
      member = In.tail k.member;
      published = k.published;
      highest = λ d m l. elim (In-cons m) [
        | inl e ↦
            subst (λ y. compare y.version x.version ≢ gt) (sym e)
              (compare-le_trans best.version c.version x.version can.0 can.1.0 cx low
                (k.highest c In.head h))
        | inr n ↦ k.highest d n l
      ];
    }

Takes-first :
    (best : Candidate) (rest : List Candidate) (t : ℕ)
    → best.published ≤ t
    → All (λ d. t < d.published) rest
    → Takes (best ∷ rest) t best
Takes-first best rest t h later = record {
  member = In.head;
  published = h;
  highest = λ d m l. elim (In-cons m) [
    | inl e ↦
        subst (λ y. compare y.version best.version ≢ gt) (sym e)
          (λ g. cc (compare_self best.version))
    | inr n ↦ absurd (omega (arith, All-In (λ d. t < d.published) n later))
  ];
}

pub steps-Answers :
    (best : Candidate) (rest : List Candidate) (t : ℕ)
    → Canonical (best ∷ rest)
    → Ascending (best ∷ rest)
    → best.published ≤ t
    → t < open_interval
    → Answers (best ∷ rest) (steps best rest) t
unfolding steps
steps-Answers best [] t can asc h end = record {
  window = window best open_interval;
  member = In.head;
  starts = h;
  ends = end;
  taken = best;
  names = refl;
  takes = Takes-first best [] t h tt;
}
steps-Answers best (c ∷ rest) t can asc h end = elim (above-cases c best) [
  | inl (up, low) ↦ elim (Bool-cases (ltb t c.published)) [
    | inl early ↦
        let later : All (λ d. t < d.published) (c ∷ rest) = (
          ground arith,
          All-weaken _ _ rest (λ d l. omega (arith, ltb→lt t c.published)) asc.1.0,
        ) in
        rw up (record {
          window = window best c.published;
          member = In.head;
          starts = h;
          ends = ground arith;
          taken = best;
          names = refl;
          takes = Takes-first best (c ∷ rest) t h later;
        })
    | inr reached ↦
        let published : c.published ≤ t = ground arith in
        let a = steps-Answers c rest t can.1 asc.1 published end in
        rw up (record {
          window = a.window;
          member = In.tail a.member;
          starts = a.starts;
          ends = a.ends;
          taken = a.taken;
          names = a.names;
          takes = Takes-step best c rest t a.taken can low published a.takes;
        })
  ]
  | inr (skip, low) ↦
      let a = steps-Answers best rest t (can.0, can.1.1) (asc.0.1, asc.1.1) h end in
      rw skip (record {
        window = a.window;
        member = a.member;
        starts = a.starts;
        ends = a.ends;
        taken = a.taken;
        names = a.names;
        takes = Takes-skip best c rest t a.taken can low h a.takes;
      })
]

-- Every window is that of a candidate.
pub steps-In :
    (best : Candidate) (rest : List Candidate) (w : Window)
    → In w (steps best rest)
    → (c : Candidate) × In c (best ∷ rest) × (w.version ≡ c.raw) × (w.from ≡ c.published)
unfolding steps
steps-In best [] w m =
    let e = In-singleton m in (best, In.head, ap (λ x. x.version) e, ap (λ x. x.from) e)
steps-In best (c ∷ rest) w m = elim (Bool-cases (above c best)) [
  | inl up ↦ elim (In-cons (rw (steps, up) at m)) [
    | inl e ↦ (best, In.head, ap (λ x. x.version) e, ap (λ x. x.from) e)
    | inr n ↦ let (d, k, v, f) = steps-In c rest w n in (d, In.tail k, v, f)
  ]
  | inr skip ↦
      let (d, k, v, f) = steps-In best rest w (rw (steps, skip) at m) in
      (
        d,
        elim (In-cons k) [ inl e ↦ In-cons_of (c ∷ rest) (inl e) | inr n ↦ In.tail (In.tail n) ],
        v,
        f,
      )
]
