-- ===== src/Resolve/Windows/Clamp.antt =====
-- The windows of internal/resolve/windows.go follow each other without gap or overlap, and `clamp`
-- keeps that while it drops what no install could have seen.
use keyholders.Base.{
  ℕ, ◌≤◌, ◌<◌, ◌≡◌, ◌≢◌, refl, sym, All, subst, ◌⊎◌, inl, inr, leb, List, [], ◌∷◌, none, some,
  arith, Bool-cases, In, In-cons, max,
}
use keyholders.Query.Interval.{open_interval}
use keyholders.Resolve.Windows.{Candidate, Window, above, window, clamp_one, clamp}
use keyholders.Resolve.Windows.Order.{Ascending}
use keyholders.Resolve.Windows.Steps.{steps}

-- The windows tile the time from the first one on, and each covers some time.
abbrev pub Tiles : List Window → Type 0
Tiles [] = Unit
Tiles (w ∷ []) = (w.from < w.to) × (w.to ≡ open_interval)
Tiles (w ∷ x ∷ ws) = (w.from < w.to) × (w.to ≡ x.from) × Tiles (x ∷ ws)

-- The same before empty windows are dropped; `n` is where the first one starts.
abbrev pub Follows : ℕ → List Window → Type 0
Follows n [] = ⊥
Follows n (w ∷ []) = (w.from ≡ n) × (w.from < open_interval) × (w.to ≡ open_interval)
Follows n (w ∷ x ∷ ws) = (w.from ≡ n) × (w.from ≤ w.to) × Follows w.to (x ∷ ws)

Follows-cons :
    (w : Window) (ws : List Window) → w.from ≤ w.to → Follows w.to ws → Follows w.from (w ∷ ws)
Follows-cons w [] h f = absurd f
Follows-cons w (x ∷ ws) h f = (refl, h, f)

pub steps-Follows :
    (best : Candidate) (rest : List Candidate)
    → Ascending (best ∷ rest)
    → All (λ c. c.published < open_interval) (best ∷ rest)
    → Follows best.published (steps best rest)
unfolding steps
steps-Follows best [] asc p = (refl, p.0, refl)
steps-Follows best (c ∷ rest) asc p = elim (Bool-cases (above c best)) [
  | inl up ↦ rw up (
      Follows-cons (window best c.published) (steps c rest) asc.0.0
        (steps-Follows c rest asc.1 p.1))
  | inr skip ↦ rw skip (steps-Follows best rest (asc.0.1, asc.1.1) (p.0, p.1.1))
]

Follows-lt : (n : ℕ) (ws : List Window) → Follows n ws → n < open_interval
Follows-lt n [] f = absurd f
Follows-lt n (w ∷ []) f = omega arith
Follows-lt n (w ∷ x ∷ ws) f = omega (arith, Follows-lt w.to (x ∷ ws) f.2)

-- What `clamp` does to one window.
clamp_one-cases :
    (w : Window) (d : ℕ)
    → ((clamp_one w d ≡ none) × (w.to ≤ max w.from d))
      ⊎ ((clamp_one w d ≡ some (record w { from = max w.from d })) × (max w.from d < w.to))
unfolding clamp_one
clamp_one-cases w d = elim (Bool-cases (leb w.to (max w.from d))) [
  | inl gone ↦ inl (ground arith, ground arith)
  | inr kept ↦ inr (ground arith, ground arith)
]

-- Where the first window starts, if there is one.
abbrev pub StartsAt : ℕ → List Window → Type 0
StartsAt n [] = Unit
StartsAt n (w ∷ ws) = w.from ≡ n

Tiles-cons :
    (w : Window) (ws : List Window)
    → w.from < w.to
    → Tiles ws
    → StartsAt w.to ws
    → ws ≢ []
    → Tiles (w ∷ ws)
Tiles-cons w [] h t s n = absurd (n refl)
Tiles-cons w (x ∷ ws) h t s n = (h, sym s, t)

pub record Clamped (n d : ℕ) (ws : List Window) : Type 0 where
  pub tiles : Tiles ws
  pub starts : StartsAt (max n d) ws
  pub stays : d < open_interval → ws ≢ []

pub clamp-Clamped : (n d : ℕ) (ws : List Window) → Follows n ws → Clamped n d (clamp ws d)
unfolding clamp
clamp-Clamped n d [] f = absurd f
clamp-Clamped n d (w ∷ []) f = elim (clamp_one-cases w d) [
  | inl (e, h) ↦
      rw (clamp, e) (record { tiles = tt; starts = tt; stays = λ l. absurd (omega arith) })
  | inr (e, h) ↦
      rw (clamp, e) (record { tiles = (h, f.2); starts = omega arith; stays = λ l e. cc })
]
clamp-Clamped n d (w ∷ x ∷ ws) f =
    let rest = clamp-Clamped w.to d (x ∷ ws) f.2 in
    elim (clamp_one-cases w d) [
      | inl (e, h) ↦
          let same : max w.to d ≡ max n d = omega arith in
          rw (clamp, e)
            (record {
              tiles = rest.tiles;
              starts = subst (λ k. StartsAt k (clamp (x ∷ ws) d)) same rest.starts;
              stays = rest.stays;
            })
      | inr (e, h) ↦
          let same : max w.to d ≡ w.to = omega arith in
          let before : d < open_interval = omega (arith, Follows-lt w.to (x ∷ ws) f.2) in
          let w' = record w { from = max w.from d } in
          rw (clamp, e)
            (record {
              tiles =
                  Tiles-cons w' (clamp (x ∷ ws) d) h rest.tiles
                    (subst (λ k. StartsAt k (clamp (x ∷ ws) d)) same rest.starts)
                    (rest.stays before);
              starts = omega arith;
              stays = λ l e. cc;
            })
    ]

-- A window that holds an instant since the declaration stays, and starts no earlier.
pub In-clamp :
    (w : Window) (d t : ℕ) (ws : List Window)
    → d ≤ t
    → w.from ≤ t
    → t < w.to
    → In w ws
    → In (record w { from = max w.from d }) (clamp ws d)
unfolding clamp
In-clamp w d t [] l h k m = elim m [ ]
In-clamp w d t (x ∷ ws) l h k In.head = elim (clamp_one-cases w d) [
  | inl (e, gone) ↦ absurd (omega arith)
  | inr (e, kept) ↦ rw (clamp, e) In.head
]
In-clamp w d t (x ∷ ws) l h k (In.tail m) = elim (clamp_one-cases x d) [
  | inl (e, gone) ↦ rw (clamp, e) (In-clamp w d t ws l h k m)
  | inr (e, kept) ↦ rw (clamp, e) (In.tail (In-clamp w d t ws l h k m))
]

-- And every window that stays is such a one.
pub In-clamp_inv :
    (w : Window) (d : ℕ) (ws : List Window)
    → In w (clamp ws d)
    → (x : Window) × In x ws × (w ≡ record x { from = max x.from d })
unfolding clamp
In-clamp_inv w d [] m = elim m [ ]
In-clamp_inv w d (x ∷ ws) m = elim (clamp_one-cases x d) [
  | inl (e, gone) ↦
      let (y, n, same) = In-clamp_inv w d ws (rw (clamp, e) at m) in (y, In.tail n, same)
  | inr (e, kept) ↦ elim (In-cons (rw (clamp, e) at m)) [
    | inl same ↦ (x, In.head, same)
    | inr later ↦ let (y, n, same) = In-clamp_inv w d ws later in (y, In.tail n, same)
  ]
]
