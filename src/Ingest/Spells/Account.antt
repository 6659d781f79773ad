-- ===== src/Ingest/Spells/Account.antt =====
-- The spells of internal/ingest/rows.go for one account, and when they hold.
use keyholders.Base.{
  ℕ, ◌+◌, ◌≤◌, ◌<◌, ◌≡◌, refl, ap, ◌∙◌, Bool, true, false, ◌&&◌, leb, ltb, inl, inr, Bool-cases,
  if◌then◌else◌, List, [], ◌∷◌, Option, none, some, Text, any, All, Ascending, arith,
}
use keyholders.Query.Interval.{open_interval}
use keyholders.Ingest.Spells.{Observation, Spell, lists}

-- The spells that close from here on, with the one that is open.
abbrev pub closing : Text → Option Spell → List Observation → List Spell
closing h none [] = []
closing h (some s) [] = s ∷ []
closing h none (o ∷ obs) =
    let joined = closing h (some (record { from = o.at; to = open_interval; observed = 1 })) obs in
    let absent = closing h none obs in if lists h o.maintainers then joined else absent
closing h (some s) (o ∷ obs) =
    let stayed =
      closing h (some (record { from = s.from; to = s.to; observed = s.observed + 1 })) obs in
    let left = closing h none obs in
    if lists h o.maintainers
    then stayed
    else record { from = s.from; to = o.at; observed = s.observed } ∷ left

-- Some of the spells covers the instant.
abbrev pub held : List Spell → ℕ → Bool
held spells t = any (λ s. leb s.from t && ltb t s.to) spells

-- Whether the last observation at or before the instant lists the account; `before` is the answer
-- where there is none.
abbrev pub listed_at : Text → ℕ → Bool → List Observation → Bool
listed_at h t before [] = before
listed_at h t before (o ∷ obs) =
    let later = listed_at h t (lists h o.maintainers) obs in if leb o.at t then later else before

abbrev pub Sorted : List Observation → Type 0
Sorted obs = Ascending (λ o. o.at) obs

-- Later observations say nothing of the instant.
listed_at-early :
    (h : Text) (t n : ℕ) (b : Bool) (obs : List Observation)
    → t < n
    → All (λ o. n ≤ o.at) obs
    → listed_at h t b obs ≡ b
listed_at-early h t n b [] l a = refl
listed_at-early h t n b (o ∷ obs) l a = ground (arith, a.0)

-- The two states that an account can be in, together: absent, and with an open spell.
held_lem :
    (h : Text) (t : ℕ) (obs : List Observation)
    → t < open_interval
    → Sorted obs
    → (held (closing h none obs) t ≡ listed_at h t false obs)
      × ((s : Spell)
          → s.to ≡ open_interval
          → All (λ o. s.from ≤ o.at) obs
          → held (closing h (some s) obs) t ≡ (leb s.from t && listed_at h t true obs))
held_lem h t [] l sorted = (refl, λ s e a. ground (arith, e, l))
held_lem h t (o ∷ obs) l sorted =
    let later = held_lem h t obs l sorted.1 in
    (
      elim (Bool-cases (lists h o.maintainers)) [
        | inl here ↦ rw here (
            later.1 (record { from = o.at; to = open_interval; observed = 1 }) refl sorted.0
            ∙ ground arith)
        | inr out ↦ rw out (later.0 ∙ early false)
      ],
      λ s e a. elim (Bool-cases (lists h o.maintainers)) [
        | inl here ↦ rw here (
            later.1 (record { from = s.from; to = s.to; observed = s.observed + 1 }) e a.1
            ∙ ap (λ b. leb s.from t && b) (early true))
        | inr out ↦ rw out (ground (arith, later.0, early false, a.0, l))
      ],
    )
  where
    early : (b : Bool) → listed_at h t b obs ≡ (if leb o.at t then listed_at h t b obs else b)
    early b = elim (Bool-cases (leb o.at t)) [
      | inl past ↦ rw past refl
      | inr future ↦ rw future (listed_at-early h t o.at b obs (ground arith) sorted.0)
    ]

-- From an absent account on, the spells cover the instants at which it was listed last.
pub held-closing :
    (h : Text) (t : ℕ) (obs : List Observation)
    → t < open_interval
    → Sorted obs
    → held (closing h none obs) t ≡ listed_at h t false obs
held-closing h t obs l sorted = (held_lem h t obs l sorted).0
