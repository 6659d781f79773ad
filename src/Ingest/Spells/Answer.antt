-- ===== src/Ingest/Spells/Answer.antt =====
-- What internal/ingest/rows.go derives: when an account held a package, as far as the samples show.
use mathlib.Core.List.{foldl, append_assoc}
use keyholders.Base.{
  ℕ, ◌<◌, ◌≡◌, refl, ap, sym, ◌∙◌, false, if◌then◌else◌, List, [], ◌∷◌, ◌++◌, Option, none, some,
  Text, lookup, Unique, arith, sort_by, sort_by-Ascending,
}
use keyholders.Query.Interval.{open_interval}
use keyholders.Ingest.Spells.{
  Observation, Spell, State, lists, spells_at, entered, observe, close_all, earlier, spells,
}
use keyholders.Ingest.Spells.Account.{closing, held, listed_at, held-closing}
use keyholders.Ingest.Spells.Projection.{
  ended, remaining, running-observe, out-observe, observe-Unique, spells_at-close_all,
}

-- One step of the account's own machine.
closing-step :
    (h : Text) (s : Option Spell) (o : Observation) (obs : List Observation)
    → closing h s (o ∷ obs)
      ≡ (if lists h o.maintainers then [] else ended o.at s)
        ++ closing h (if lists h o.maintainers then some (entered o.at s) else none) obs
closing-step h none o obs = ground arith
closing-step h (some s) o obs = ground arith

closing-end : (h : Text) (s : Option Spell) → closing h s [] ≡ remaining s
closing-end h none = refl
closing-end h (some s) = refl

observed :
    (st : State) (obs : List Observation) (h : Text)
    → Unique st.running
    → spells_at (close_all (foldl observe st obs).out (foldl observe st obs).running) h
      ≡ spells_at st.out h ++ closing h (lookup h st.running) obs
observed st [] h u =
    spells_at-close_all st.out st.running h u
    ∙ ap (λ rest. spells_at st.out h ++ rest) (sym (closing-end h (lookup h st.running)))
observed st (o ∷ obs) h u =
    let gone = if lists h o.maintainers then [] else ended o.at (lookup h st.running) in
    let on = if lists h o.maintainers then some (entered o.at (lookup h st.running)) else none in
    observed (observe st o) obs h (observe-Unique st o u)
    ∙ rw (out-observe st o h u, running-observe st o h)
        (append_assoc (spells_at st.out h) gone (closing h on obs)
          ∙ ap (λ rest. spells_at st.out h ++ rest)
              (sym (closing-step h (lookup h st.running) o obs)))

-- At every instant before the open end, some spell of an account covers the instant exactly when the
-- last of the sorted observations at or before the instant lists the account.
pub held-spells :
    (obs : List Observation) (h : Text) (t : ℕ)
    → t < open_interval
    → held (spells_at (spells obs) h) t ≡ listed_at h t false (sort_by earlier obs)
unfolding spells lookup
held-spells obs h t l =
    ap (λ s. held s t) (observed (record { running = []; out = [] }) (sort_by earlier obs) h tt)
    ∙ held-closing h t (sort_by earlier obs) l (sort_by-Ascending (λ o. o.at) obs)
