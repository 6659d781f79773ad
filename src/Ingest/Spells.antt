-- ===== src/Ingest/Spells.antt =====
-- internal/ingest/rows.go: the spells of the accounts, from sampled maintainer sets.
pub mod Account
pub mod Projection
pub mod Answer
use mathlib.Core.List.{foldl}
use keyholders.Base.{
  ℕ, ◌+◌, Bool, true, false, ◌&&◌, leb, ltb, if◌then◌else◌, List, [], ◌∷◌, ◌++◌, Option, none, some,
  Text, Table, text_eq, lookup, put, any, sort_by,
}
use keyholders.Query.Interval.{open_interval}

pub record Observation : Type 0 where
  pub at : ℕ
  pub maintainers : List Text

pub record Spell : Type 0 where
  pub from : ℕ
  pub to : ℕ
  pub observed : ℕ

-- `here[h]`
abbrev pub lists : Text → List Text → Bool
lists h maintainers = any (λ m. text_eq m h) maintainers

-- The keys of `here`.
unfoldable pub distinct : List Text → List Text
distinct [] = []
distinct (h ∷ maintainers) =
    let rest = distinct maintainers in if lists h rest then rest else h ∷ rest

-- A missing key of `out` reads as no spells.
abbrev pub spells_at : Table (List Spell) → Text → List Spell
spells_at out h = elim (lookup h out) [ none ↦ [] | some spells ↦ spells ]

unfoldable pub emit : Text → Spell → Table (List Spell) → Table (List Spell)
emit h s out = put h (spells_at out h ++ s ∷ []) out

-- The variables of the loop.
pub record State : Type 0 where
  pub running : Table Spell
  pub out : Table (List Spell)

-- The loop over `open`: who is gone by `o`.
unfoldable pub close_gone : Observation → Table Spell → Table (List Spell) → State
close_gone o [] out = record { running = []; out = out }
close_gone o ((h, s) ∷ running) out =
    let kept = close_gone o running out in
    let closed =
      close_gone o running
        (emit h (record { from = s.from; to = o.at; observed = s.observed }) out) in
    if lists h o.maintainers
    then record { running = (h, s) ∷ kept.running; out = kept.out }
    else closed

-- The spell of an account that is here: its open one, seen once more, or a new one.
abbrev pub entered : ℕ → Option Spell → Spell
entered at none = record { from = at; to = open_interval; observed = 1 }
entered at (some s) = record { from = s.from; to = s.to; observed = s.observed + 1 }

-- The body of the loop over `here`.
unfoldable pub enter : ℕ → Table Spell → Text → Table Spell
enter at running h = put h (entered at (lookup h running)) running

unfoldable pub observe : State → Observation → State
observe st o =
    let left = close_gone o st.running st.out in
    record { running = foldl (enter o.at) left.running (distinct o.maintainers); out = left.out }

-- What is still open at the end.
unfoldable pub close_all : Table (List Spell) → Table Spell → Table (List Spell)
close_all out [] = out
close_all out ((h, s) ∷ running) = close_all (emit h s out) running

abbrev pub earlier : Observation → Observation → Bool
earlier a b = ltb a.at b.at

unfoldable pub spells : List Observation → Table (List Spell)
spells obs =
    let st = foldl observe (record { running = []; out = [] }) (sort_by earlier obs) in
    close_all st.out st.running
