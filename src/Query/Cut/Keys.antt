-- ===== src/Query/Cut/Keys.antt =====
-- The keys of the map that the replay of internal/query/reach.go fills: a node has an entry exactly
-- when it is reached at some instant.
use mathlib.Core.List.{foldl}
use keyholders.Base.{
  has_key, ℕ, zero, suc, ◌≡◌, refl, sym, subst, ◌∙◌, ◌⊎◌, inl, inr, Bool, true, if◌then◌else◌, List,
  [], ◌∷◌, arith, Bool-cases, Text, Table, text_eq, lookup, put, lookup-put, Unique, put-Unique,
}
use keyholders.Query.Interval.{Interval, Set, empty, insert, holds_at}
use keyholders.Query.Interval.Insert.{holds_at-insert, insert_added_iff}
use keyholders.Query.Reach.{
  Edge, Entry, Options, Search, set_at, admit, seed, follow, visit, level, levels, replay,
}
use keyholders.Query.Reach.Offers.{Maximal, admit-Maximal, set_at-put}
use keyholders.Query.Cut.{}

-- What every offer keeps, the replay keeps.
module _ (P : Table Set → Type 0)
    (keep : (s : Search) (u : Text) (span : Interval) → P s.reached → P (admit s u span).reached)
    (blocked : Text → Bool) (edges : Text → List Edge) where
  seed_keeps :
      (within : Interval) (s : Search) (e : Entry)
      → P s.reached
      → P (seed blocked within s e).reached
  unfolding seed
  seed_keeps within s e p = elim (Bool-cases (blocked e.urn)) [
    | inl out ↦ rw out p
    | inr stay ↦ rw stay (keep s _ _ p)
  ]

  seeds_keep :
      (within : Interval) (s : Search) (sources : List Entry)
      → P s.reached
      → P (foldl (seed blocked within) s sources).reached
  seeds_keep within s [] p = p
  seeds_keep within s (e ∷ sources) p =
      seeds_keep within (seed blocked within s e) sources (seed_keeps within s e p)

  follow_keeps :
      (entry : Entry) (s : Search) (e : Edge) → P s.reached → P (follow blocked entry s e).reached
  unfolding follow
  follow_keeps entry s e p = elim (Bool-cases (blocked e.to)) [
    | inl out ↦ rw out p
    | inr stay ↦ rw stay (keep s _ _ p)
  ]

  follows_keep :
      (entry : Entry) (s : Search) (es : List Edge)
      → P s.reached
      → P (foldl (follow blocked entry) s es).reached
  follows_keep entry s [] p = p
  follows_keep entry s (e ∷ es) p =
      follows_keep entry (follow blocked entry s e) es (follow_keeps entry s e p)

  visits_keep :
      (s : Search) (frontier : List Entry)
      → P s.reached
      → P (foldl (visit blocked edges) s frontier).reached
  unfolding visit
  visits_keep s [] p = p
  visits_keep s (e ∷ frontier) p =
      visits_keep (foldl (follow blocked e) s (edges e.urn)) frontier
        (follows_keep e s (edges e.urn) p)

  levels_keep :
      (rounds depth : ℕ) (reached : Table Set) (frontier : List Entry)
      → P reached
      → P (levels blocked edges rounds depth reached frontier).reached
  unfolding levels level
  levels_keep zero depth reached frontier p = p
  levels_keep (suc rounds) depth reached [] p = p
  levels_keep (suc rounds) depth reached (e ∷ frontier) p =
      levels_keep rounds (suc depth) _ _
        (visits_keep (record { reached = reached; next = [] }) (e ∷ frontier) p)

  replay_keeps :
      (sources : List Entry) (opts : Options) → P [] → P (replay sources opts edges blocked).reached
  unfolding replay
  replay_keeps sources opts p =
      levels_keep opts.max_depth 1 _ _
        (seeds_keep opts.within (record { reached = []; next = [] }) sources p)

-- Every set is maximal, and a node with an entry is reached at some instant.
abbrev Filled : Table Set → Type 0
Filled reached =
    Maximal reached
    × ((v : Text) → has_key reached v ≡ true → (t : ℕ) × (holds_at (set_at reached v) t ≡ true))

admit-cases :
    (s : Search) (u : Text) (span : Interval)
    → (admit s u span ≡ s)
      ⊎ (((insert (set_at s.reached u) span).1 ≡ true)
          × ((admit s u span).reached ≡ put u (insert (set_at s.reached u) span).0 s.reached))
unfolding admit
admit-cases s u span = elim (Bool-cases (empty span)) [
  | inl gone ↦ inl (rw gone refl)
  | inr some_time ↦ elim (Bool-cases (insert (set_at s.reached u) span).1) [
    | inl added ↦ inr (added, rw (some_time, added) refl)
    | inr old ↦ inl (rw (some_time, old) refl)
  ]
]

has_key-put :
    (u v : Text) (set : Set) (m : Table Set)
    → has_key (put u set m) v ≡ (if text_eq u v then true else has_key m v)
has_key-put u v set m = ground (arith, lookup-put u v set m)

admit-Filled :
    (s : Search) (u : Text) (span : Interval) → Filled s.reached → Filled (admit s u span).reached
admit-Filled s u span (m, f) = (
  admit-Maximal s u span m,
  λ v h. elim (admit-cases s u span) [
    | inl same ↦
        let (t, k) = f v (subst (λ x. has_key x.reached v ≡ true) same h) in
        (t, subst (λ x. holds_at (set_at x.reached v) t ≡ true) (sym same) k)
    | inr (added, e) ↦ elim (Bool-cases (text_eq u v)) [
      | inl here ↦
          let (t, k, new) = (insert_added_iff (set_at s.reached u) span (m u)).0 added in
          let set = (insert (set_at s.reached u) span).0 in
          let now : holds_at set t ≡ true =
            ground (arith, holds_at-insert (set_at s.reached u) span t (m u)) in
          (
            t,
            subst (λ x. holds_at (set_at x v) t ≡ true) (sym e)
                (subst (λ x. holds_at x t ≡ true)
                  (sym (set_at-put u v set s.reached ∙ rw here refl)) now),
          )
      | inr other ↦
          let set = (insert (set_at s.reached u) span).0 in
          let old : has_key s.reached v ≡ true =
            sym (has_key-put u v set s.reached ∙ rw other refl)
            ∙ subst (λ x. has_key x v ≡ true) e h in
          let (t, k) = f v old in
          (
            t,
            subst (λ x. holds_at (set_at x v) t ≡ true) (sym e)
                (subst (λ x. holds_at x t ≡ true)
                  (sym (set_at-put u v set s.reached ∙ rw other refl)) k),
          )
    ]
  ],
)

no_keys : Filled []
unfolding lookup
no_keys = (λ v. tt, λ v h. cc)

pub key_held :
    (sources : List Entry) (opts : Options) (edges : Text → List Edge) (blocked : Text → Bool)
    (v : Text)
    → has_key (replay sources opts edges blocked).reached v ≡ true
    → (t : ℕ) × (holds_at (set_at (replay sources opts edges blocked).reached v) t ≡ true)
key_held sources opts edges blocked v h =
    (replay_keeps Filled admit-Filled blocked edges sources opts no_keys).1 v h

pub held_key :
    (reached : Table Set) (v : Text) (t : ℕ)
    → holds_at (set_at reached v) t ≡ true
    → has_key reached v ≡ true
held_key reached v t h = ground arith

admit-Unique :
    (s : Search) (u : Text) (span : Interval) → Unique s.reached → Unique (admit s u span).reached
admit-Unique s u span h = elim (admit-cases s u span) [
  | inl same ↦ rw same h
  | inr (added, e) ↦ rw e (put-Unique u _ s.reached h)
]

-- No node has two entries.
pub replay-Unique :
    (sources : List Entry) (opts : Options) (edges : Text → List Edge) (blocked : Text → Bool)
    → Unique (replay sources opts edges blocked).reached
replay-Unique sources opts edges blocked =
    replay_keeps Unique admit-Unique blocked edges sources opts tt
