-- ===== src/Query/Reach/Offers.antt =====
-- What one round of the replay of internal/query/reach.go does to the spans reached: both of its
-- loops offer spans one after the other, and an offer adds the instants that were missing.
use mathlib.Core.List.{foldl}
use keyholders.Base.{
  ℕ, ◌≡◌, refl, ap, ◌∙◌, subst, ◌⊎◌, inl, inr, Bool, true, false, ◌&&◌, ◌||◌, not, if◌then◌else◌,
  List, [], ◌∷◌, ◌++◌, arith, Bool-cases, In, In-append_left, In-append_right, In-snoc, Text, Table,
  text_eq, text_eq_iff, put, lookup-put,
}
use keyholders.Query.Interval.{Interval, Set, contains, insert, holds_at, IsMaximal}
use keyholders.Query.Interval.Insert.{insert-IsMaximal, holds_at-insert, insert_unchanged}
use keyholders.Query.Reach.{Entry, Search, set_at, admit}

abbrev pub held : Table Set → Text → ℕ → Bool
held reached v t = holds_at (set_at reached v) t

abbrev pub Maximal : Table Set → Type 0
Maximal reached = (v : Text) → IsMaximal (set_at reached v)

pub set_at-put :
    (u v : Text) (s : Set) (m : Table Set)
    → set_at (put u s m) v ≡ (if text_eq u v then s else set_at m v)
set_at-put u v s m = ground (arith, lookup-put u v s m)

-- The span that an offer holds for a node at an instant.
abbrev pub hits : (Text → Bool) → Entry → Text → ℕ → Bool
hits blocked c v t = not (blocked c.urn) && (text_eq c.urn v && contains c.valid t)

abbrev pub hits_any : (Text → Bool) → List Entry → Text → ℕ → Bool
hits_any blocked [] v t = false
hits_any blocked (c ∷ cs) v t = hits blocked c v t || hits_any blocked cs v t

abbrev pub offer : (Text → Bool) → Search → Entry → Search
offer blocked s c = if blocked c.urn then s else admit s c.urn c.valid

pub admit-Maximal :
    (s : Search) (u : Text) (span : Interval) → Maximal s.reached → Maximal (admit s u span).reached
unfolding admit
admit-Maximal s u span m v = ground (
  arith,
  insert-IsMaximal (set_at s.reached u) span (m u),
  m v,
  set_at-put u v (insert (set_at s.reached u) span).0 s.reached,
)

-- An offer adds exactly the instants of its span, at its node.
admit-held :
    (s : Search) (u : Text) (span : Interval) (v : Text) (t : ℕ)
    → Maximal s.reached
    → held (admit s u span).reached v t ≡ ((text_eq u v && contains span t) || held s.reached v t)
unfolding admit
admit-held s u span v t m = ground (
  arith,
  holds_at-insert (set_at s.reached u) span t (m u),
  insert_unchanged (set_at s.reached u) span,
  set_at-put u v (insert (set_at s.reached u) span).0 s.reached,
  text_eq_iff u v,
)

-- What the frontier gains: nothing, or the entry that was offered.
admit-next :
    (s : Search) (u : Text) (span : Interval)
    → ((admit s u span).next ≡ s.next) × ((admit s u span).reached ≡ s.reached)
      ⊎ ((admit s u span).next ≡ s.next ++ record { urn = u; valid = span } ∷ [])
unfolding admit
admit-next s u span = ground arith

hits_any-append :
    (blocked : Text → Bool) (cs ds : List Entry) (v : Text) (t : ℕ)
    → hits_any blocked (cs ++ ds) v t ≡ (hits_any blocked cs v t || hits_any blocked ds v t)
hits_any-append blocked [] ds v t = refl
hits_any-append blocked (c ∷ cs) ds v t = ground (arith, hits_any-append blocked cs ds v t)

admit-fresh :
    (s : Search) (c : Entry) (v : Text) (t : ℕ)
    → Maximal s.reached
    → held (admit s c.urn c.valid).reached v t ≡ true
    → (held s.reached v t ≡ true)
      ⊎ ((d : Entry) × In d (admit s c.urn c.valid).next
          × (d.urn ≡ v)
          × (contains d.valid t ≡ true))
admit-fresh s c v t m h = elim (admit-next s c.urn c.valid) [
  | inl (_, same) ↦ inl (rw same at h)
  | inr grown ↦ elim (Bool-cases (held s.reached v t)) [
    | inl old ↦ inl old
    | inr new ↦
        let offered : (text_eq c.urn v && contains c.valid t) ≡ true =
          ground (arith, admit-held s c.urn c.valid v t m) in
        inr (
          c,
          rw grown (In-append_right s.next In.head),
          ground (arith, text_eq_iff c.urn v),
          ground arith,
        )
  ]
]

admit-keeps : (s : Search) (c d : Entry) → In d s.next → In d (admit s c.urn c.valid).next
admit-keeps s c d h = elim (admit-next s c.urn c.valid) [
  | inl (same, _) ↦ rw same h
  | inr grown ↦ rw grown (In-append_left _ h)
]

admit-source :
    (s : Search) (c d : Entry) → In d (admit s c.urn c.valid).next → In d s.next ⊎ (d ≡ c)
admit-source s c d h = elim (admit-next s c.urn c.valid) [
  | inl (same, _) ↦ inl (rw same at h)
  | inr grown ↦ In-snoc s.next (rw grown at h)
]

module _ (blocked : Text → Bool) where
  -- The offers `cs` lead from `s` to `s'`.
  pub record Offered (cs : List Entry) (s s' : Search) : Type 0 where
    pub maximal : Maximal s'.reached
    pub holds :
        (v : Text) (t : ℕ) → held s'.reached v t ≡ (hits_any blocked cs v t || held s.reached v t)
    pub fresh :
        (v : Text) (t : ℕ)
        → held s'.reached v t ≡ true
        → (held s.reached v t ≡ true)
          ⊎ ((c : Entry) × In c s'.next × (c.urn ≡ v) × (contains c.valid t ≡ true))
    pub keeps : (c : Entry) → In c s.next → In c s'.next
    pub source : (c : Entry) → In c s'.next → In c s.next ⊎ (In c cs × (blocked c.urn ≡ false))

  Offered-none : (s : Search) → Maximal s.reached → Offered [] s s
  Offered-none s m = record {
    maximal = m;
    holds = λ v t. refl;
    fresh = λ v t h. inl h;
    keeps = λ c h. h;
    source = λ c h. inl h;
  }

  pub Offered-append :
      {cs ds : List Entry} {s t u : Search}
      → Offered cs s t
      → Offered ds t u
      → Offered (cs ++ ds) s u
  Offered-append {cs} {ds} p q = record {
    maximal = q.maximal;
    holds = λ v n. ground (arith, q.holds v n, p.holds v n, hits_any-append blocked cs ds v n);
    fresh = λ v n h. elim (q.fresh v n h) [
      | inl old ↦ elim (p.fresh v n old) [
        | inl older ↦ inl older
        | inr (c, m, e, k) ↦ inr (c, q.keeps c m, e, k)
      ]
      | inr new ↦ inr new
    ];
    keeps = λ c h. q.keeps c (p.keeps c h);
    source = λ c h. elim (q.source c h) [
      | inl old ↦ elim (p.source c old) [
        | inl older ↦ inl older
        | inr (m, b) ↦ inr (In-append_left ds m, b)
      ]
      | inr (m, b) ↦ inr (In-append_right cs m, b)
    ];
  }

  Offered-one :
      (s : Search) (c : Entry) → Maximal s.reached → Offered (c ∷ []) s (offer blocked s c)
  Offered-one s c m = elim (Bool-cases (blocked c.urn)) [
    | inl out ↦ record {
      maximal = rw out m;
      holds = λ v t. rw out refl;
      fresh = λ v t h. inl (rw out at h);
      keeps = λ d h. rw out h;
      source = λ d h. inl (rw out at h);
    }
    | inr free ↦ rw free (record {
      maximal = admit-Maximal s c.urn c.valid m;
      holds = λ v t. ground (arith, admit-held s c.urn c.valid v t m);
      fresh = λ v t h. admit-fresh s c v t m h;
      keeps = λ d h. admit-keeps s c d h;
      source = λ d h. elim (admit-source s c d h) [
        | inl old ↦ inl old
        | inr e ↦ inr (subst (λ x. In d (x ∷ [])) e In.head, ap (λ x. blocked x.urn) e ∙ free)
      ];
    })
  ]

  pub Offered-foldl :
      (s : Search) (cs : List Entry) → Maximal s.reached → Offered cs s (foldl (offer blocked) s cs)
  Offered-foldl s [] m = Offered-none s m
  Offered-foldl s (c ∷ cs) m =
      let first = Offered-one s c m in
      Offered-append first (Offered-foldl (offer blocked s c) cs first.maximal)
