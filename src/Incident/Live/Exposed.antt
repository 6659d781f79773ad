-- ===== src/Incident/Live/Exposed.antt =====
-- Whom internal/incident/resolved_while_live.go names.
use keyholders.Base.{
  ◌≤◌, ◌<◌, ◌≡◌, ◌↔◌, ◌⊎◌, sym, ap, ◌∙◌, true, inl, inr, Bool-cases, ◌||◌, ltb, leb, List, [], ◌∷◌,
  ◌++◌, In, In-cons, In-cons_of, In-append, In-append_left, In-append_right, Text, Read, Read-cases,
  subst, arith,
}
use keyholders.Incident.Live.{
  ResolutionWindow, LockedAt, LiveSource, Exposure, Outcome, exposure, exposures, over_windows,
  resolved_while_live,
}

-- One of the windows has, by the source, such a lock.
abbrev pub Exposed : LiveSource → List ResolutionWindow → Exposure → Type 0
Exposed src windows e =
    (w : ResolutionWindow) × In w windows
    × (locks : List LockedAt) × (src.projects_locking w.dependent_name w.dependent_version
        ≡ Read.got locks)
    × (l : LockedAt) × In l locks
    × (w.valid_from ≤ l.at)
    × (l.at < w.valid_to)
    × (e ≡ exposure w l)

exposures_iff :
    (w : ResolutionWindow) (locks : List LockedAt) (e : Exposure)
    → In e (exposures w locks) ↔ (
        (l : LockedAt) × In l locks
        × (w.valid_from ≤ l.at)
        × (l.at < w.valid_to)
        × (e ≡ exposure w l))
unfolding exposures
exposures_iff w [] e = (λ m. elim m [ ], λ (l, m, a, b, q). elim m [ ])
exposures_iff w (l ∷ locks) e = elim (Bool-cases (ltb l.at w.valid_from || leb w.valid_to l.at)) [
  | inl outside ↦ rw outside (
    λ m. let (k, n, a, b, q) = (exposures_iff w locks e).0 m in (k, In.tail n, a, b, q),
    λ (k, n, a, b, q). elim (In-cons n) [
      | inl s ↦ absurd (clash k s a b outside)
      | inr t ↦ (exposures_iff w locks e).1 (k, t, a, b, q)
    ],
  )
  | inr inside ↦ rw inside (
    λ m. elim (In-cons m) [
      | inl s ↦ (l, In.head, ground arith, ground arith, s)
      | inr t ↦ let (k, n, a, b, q) = (exposures_iff w locks e).0 t in (k, In.tail n, a, b, q)
    ],
    λ (k, n, a, b, q). elim (In-cons n) [
      | inl s ↦ In-cons_of (exposures w locks) (inl (q ∙ ap (exposure w) s))
      | inr t ↦ In.tail ((exposures_iff w locks e).1 (k, t, a, b, q))
    ],
  )
]
  where
    clash :
        (k : LockedAt)
        → k ≡ l
        → w.valid_from ≤ k.at
        → k.at < w.valid_to
        → (ltb l.at w.valid_from || leb w.valid_to l.at) ≡ true
        → ⊥
    clash k s a b outside = ground (arith, ap (λ (x : LockedAt). x.at) s, a, b, outside)

over_windows_iff :
    (src : LiveSource) (before : List Exposure) (windows : List ResolutionWindow)
    (out : List Exposure) (e : Exposure)
    → over_windows src before windows ≡ Outcome.ok out
    → In e out ↔ (In e before ⊎ Exposed src windows e)
unfolding over_windows
over_windows_iff src before [] out e h =
    let same : before ≡ out = ground (arith, h) in
    rw (sym same)
      (λ m. inl m, λ s. elim s [ inl m ↦ m | inr (w, m, locks, r, l, n, a, b, q) ↦ elim m [ ] ])
over_windows_iff src before (w ∷ windows) out e h =
    elim (Read-cases (src.projects_locking w.dependent_name w.dependent_version)) [
      | inl (x, q) ↦ absurd (stopped x q)
      | inr (locks, q) ↦
          let rest =
            over_windows_iff src (before ++ exposures w locks) windows out e
              (ground (arith, h, q)) in
          let here = exposures_iff w locks e in
          (
            λ m. elim (rest.0 m) [
              | inl k ↦ elim (In-append before (exposures w locks) k) [
                | inl old ↦ inl old
                | inr new ↦
                    let (l, n, a, b, c) = here.0 new in inr (w, In.head, locks, q, l, n, a, b, c)
              ]
              | inr (v, k, seen, r, l, n, a, b, c) ↦ inr (v, In.tail k, seen, r, l, n, a, b, c)
            ],
            λ s. elim s [
              | inl old ↦ rest.1 (inl (In-append_left (exposures w locks) old))
              | inr (v, k, seen, r, l, n, a, b, c) ↦ elim (In-cons k) [
                | inl same ↦
                    rest.1 (
                      inl (In-append_right before (here.1 (moved locks q v same seen r l n a b c))))
                | inr t ↦ rest.1 (inr (v, t, seen, r, l, n, a, b, c))
              ]
            ],
          )
    ]
  where
    stopped :
        (x : Text) → src.projects_locking w.dependent_name w.dependent_version ≡ Read.failed x → ⊥
    stopped x q = ground (arith, h, q)

    moved :
        (locks : List LockedAt)
        → src.projects_locking w.dependent_name w.dependent_version ≡ Read.got locks
        → (v : ResolutionWindow) → v ≡ w
        → (seen : List LockedAt)
        → src.projects_locking v.dependent_name v.dependent_version ≡ Read.got seen
        → (l : LockedAt) → In l seen
        → v.valid_from ≤ l.at
        → l.at < v.valid_to
        → e ≡ exposure v l
        → (l : LockedAt) × In l locks
          × (w.valid_from ≤ l.at)
          × (l.at < w.valid_to)
          × (e ≡ exposure w l)
    moved locks q v same seen r l n a b c =
        let asked =
          ap (λ (x : ResolutionWindow). src.projects_locking x.dependent_name x.dependent_version)
            same in
        let equal : seen ≡ locks = ground (arith, asked, q, r) in
        (
          l,
          subst (λ ls. In l ls) equal n,
          subst (λ (x : ResolutionWindow). x.valid_from ≤ l.at) same a,
          subst (λ (x : ResolutionWindow). l.at < x.valid_to) same b,
          c ∙ ap (λ (x : ResolutionWindow). exposure x l) same,
        )

-- Where the source answers the first read with some windows and exposures are returned, they are
-- exactly the pairs of a window and a lock of its dependent such that the lock was recorded inside
-- the window, its start included and its end not.
pub resolved_while_live-Exposed :
    (src : LiveSource) (name version : Text) (windows : List ResolutionWindow) (out : List Exposure)
    → src.resolvers_into name version ≡ Read.got windows
    → resolved_while_live src name version ≡ Outcome.ok out
    → (e : Exposure) → In e out ↔ Exposed src windows e
unfolding resolved_while_live
resolved_while_live-Exposed src name version windows out a h e =
    let all = over_windows_iff src [] windows out e (ground (arith, a, h)) in
    (λ m. elim (all.0 m) [ inl n ↦ elim n [ ] | inr x ↦ x ], λ x. all.1 (inr x))
