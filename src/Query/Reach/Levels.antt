-- ===== src/Query/Reach/Levels.antt =====
-- The rounds of the replay of internal/query/reach.go as lists of offers.
use mathlib.Core.List.{foldl}
use keyholders.Base.{
  ℕ, ◌≡◌, subst, inl, inr, Bool, true, false, List, [], ◌∷◌, ◌++◌, map, arith, In, In-append,
  In-append_left, In-append_right, In-map, In-map_inv, foldl-map, Text, Table, text_eq_refl,
}
use keyholders.Query.Interval.{Interval, Set, intersect, contains}
use keyholders.Query.Reach.{Edge, Entry, Search, follow, visit, level, seed}
use keyholders.Query.Reach.Offers.{Maximal, hits_any, offer, Offered, Offered-append, Offered-foldl}

-- The span that an entry offers along an edge, and a source at the start.
abbrev pub along : Entry → Edge → Entry
along entry e = record { urn = e.to; valid = intersect entry.valid e.valid }

abbrev pub within_span : Interval → Entry → Entry
within_span within s = record { urn = s.urn; valid = intersect s.valid within }

pub hits_any-In :
    (blocked : Text → Bool) {c : Entry} {cs : List Entry} (t : ℕ)
    → In c cs
    → blocked c.urn ≡ false
    → contains c.valid t ≡ true
    → hits_any blocked cs c.urn t ≡ true
hits_any-In blocked {c} t In.head b h = ground (arith, text_eq_refl c.urn)
hits_any-In blocked t (In.tail m) b h = ground (arith, hits_any-In blocked t m b h)

module _ (blocked : Text → Bool) (edges : Text → List Edge) where
  -- The offers of one wavefront.
  abbrev pub spread : List Entry → List Entry
  spread [] = []
  spread (entry ∷ frontier) = map (along entry) (edges entry.urn) ++ spread frontier

  pub In-spread :
      {entry : Entry} {e : Edge} {frontier : List Entry}
      → In entry frontier
      → In e (edges entry.urn)
      → In (along entry e) (spread frontier)
  In-spread {entry} In.head m = In-append_left _ (In-map (along entry) m)
  In-spread (In.tail {x} n) m = In-append_right (map (along x) (edges x.urn)) (In-spread n m)

  pub In-spread_inv :
      {c : Entry} (frontier : List Entry)
      → In c (spread frontier)
      → (entry : Entry) × In entry frontier
        × ((e : Edge) × In e (edges entry.urn) × (c ≡ along entry e))
  In-spread_inv [] m = elim m [ ]
  In-spread_inv (x ∷ frontier) m = elim (In-append (map (along x) (edges x.urn)) _ m) [
    | inl l ↦ (x, In.head, In-map_inv (along x) (edges x.urn) l)
    | inr r ↦ let (entry, n, rest) = In-spread_inv frontier r in (entry, In.tail n, rest)
  ]

  visit-Offered :
      (s : Search) (entry : Entry)
      → Maximal s.reached
      → Offered blocked (map (along entry) (edges entry.urn)) s (visit blocked edges s entry)
  unfolding visit follow
  visit-Offered s entry m =
      subst (Offered blocked (map (along entry) (edges entry.urn)) s)
        (foldl-map (offer blocked) (along entry) s (edges entry.urn))
        (Offered-foldl blocked s (map (along entry) (edges entry.urn)) m)

  spread-Offered :
      (s : Search) (frontier : List Entry)
      → Maximal s.reached
      → Offered blocked (spread frontier) s (foldl (visit blocked edges) s frontier)
  spread-Offered s [] m = Offered-foldl blocked s [] m
  spread-Offered s (entry ∷ frontier) m =
      let first = visit-Offered s entry m in
      Offered-append blocked first
        (spread-Offered (visit blocked edges s entry) frontier first.maximal)

  pub level-Offered :
      (reached : Table Set) (frontier : List Entry)
      → Maximal reached
      → Offered blocked
          (spread frontier)
          (record { reached = reached; next = [] })
          (level blocked edges reached frontier)
  unfolding level
  level-Offered reached frontier m = spread-Offered _ frontier m

pub seeds-Offered :
    (blocked : Text → Bool) (within : Interval) (s : Search) (sources : List Entry)
    → Maximal s.reached
    → Offered blocked (map (within_span within) sources) s (foldl (seed blocked within) s sources)
unfolding seed
seeds-Offered blocked within s sources m =
    subst (Offered blocked (map (within_span within) sources) s)
      (foldl-map (offer blocked) (within_span within) s sources)
      (Offered-foldl blocked s (map (within_span within) sources) m)
