-- ===== src/Ingest/Spells/Projection.antt =====
-- The maps of internal/ingest/rows.go, seen at one account.
use mathlib.Core.List.{foldl, append-nil}
use keyholders.Base.{
  ℕ, ◌≡◌, refl, ◌∙◌, false, inl, inr, Bool-cases, if◌then◌else◌, List, [], ◌∷◌, ◌++◌, Option, none,
  some, Text, Table, text_eq, text_eq_iff, lookup, lookup-put, Unique, put-Unique, arith,
}
use keyholders.Ingest.Spells.{
  Observation, Spell, State, lists, distinct, spells_at, emit, close_gone, enter, entered, observe,
  close_all,
}

emit_lem :
    (k h : Text) (s : Spell) (out : Table (List Spell))
    → spells_at (emit k s out) h
      ≡ (if text_eq k h then spells_at out h ++ s ∷ [] else spells_at out h)
unfolding emit
emit_lem k h s out = ground (arith, lookup-put k h (spells_at out k ++ s ∷ []) out, text_eq_iff k h)

-- What the loop over the open spells ends.
abbrev pub ended : ℕ → Option Spell → List Spell
ended at none = []
ended at (some s) = record { from = s.from; to = at; observed = s.observed } ∷ []

abbrev pub remaining : Option Spell → List Spell
remaining none = []
remaining (some s) = s ∷ []

running-close_gone :
    (o : Observation) (running : Table Spell) (out : Table (List Spell)) (h : Text)
    → lookup h (close_gone o running out).running
      ≡ (if lists h o.maintainers then lookup h running else none)
unfolding close_gone lookup
running-close_gone o [] out h = ground arith
running-close_gone o ((k, s) ∷ running) out h = elim (Bool-cases (lists k o.maintainers)) [
  | inl here ↦ rw here (ground (arith, running-close_gone o running out h, text_eq_iff k h, here))
  | inr gone ↦
      let out' = emit k (record { from = s.from; to = o.at; observed = s.observed }) out in
      rw gone (ground (arith, running-close_gone o running out' h, text_eq_iff k h, gone))
]

out-close_gone :
    (o : Observation) (running : Table Spell) (out : Table (List Spell)) (h : Text)
    → Unique running
    → spells_at (close_gone o running out).out h
      ≡ spells_at out h ++ (if lists h o.maintainers then [] else ended o.at (lookup h running))
unfolding close_gone lookup
out-close_gone o [] out h u = ground (arith, append-nil (spells_at out h))
out-close_gone o ((k, s) ∷ running) out h u = elim (Bool-cases (lists k o.maintainers)) [
  | inl here ↦ rw here (out-close_gone o running out h u.1 ∙ ground (arith, text_eq_iff k h, here))
  | inr gone ↦
      let e : Spell = record { from = s.from; to = o.at; observed = s.observed } in
      rw gone (
        out-close_gone o running (emit k e out) h u.1
        ∙ ground (
          arith,
          emit_lem k h e out,
          text_eq_iff k h,
          gone,
          u.0,
          append-nil (spells_at out h ++ e ∷ []),
        ))
]

close_gone-Unique :
    (o : Observation) (running : Table Spell) (out : Table (List Spell))
    → Unique running
    → Unique (close_gone o running out).running
unfolding close_gone lookup
close_gone-Unique o [] out u = tt
close_gone-Unique o ((k, s) ∷ running) out u = elim (Bool-cases (lists k o.maintainers)) [
  | inl here ↦ rw here (
    ground (arith, running-close_gone o running out k, u.0, here),
    close_gone-Unique o running out u.1,
  )
  | inr gone ↦ rw gone (
      close_gone-Unique o running
        (emit k (record { from = s.from; to = o.at; observed = s.observed }) out) u.1)
]

enter_lem :
    (at : ℕ) (running : Table Spell) (k h : Text)
    → lookup h (enter at running k)
      ≡ (if text_eq k h then some (entered at (lookup h running)) else lookup h running)
unfolding enter
enter_lem at running k h =
    ground (arith, text_eq_iff k h, lookup-put k h (entered at (lookup k running)) running)

enter-Unique :
    (at : ℕ) (running : Table Spell) (k : Text) → Unique running → Unique (enter at running k)
unfolding enter
enter-Unique at running k u = put-Unique k (entered at (lookup k running)) running u

abbrev NoRepeat : List Text → Type 0
NoRepeat [] = Unit
NoRepeat (h ∷ hs) = (lists h hs ≡ false) × NoRepeat hs

lists-distinct : (h : Text) (hs : List Text) → lists h (distinct hs) ≡ lists h hs
unfolding distinct
lists-distinct h [] = refl
lists-distinct h (k ∷ hs) = ground (arith, lists-distinct h hs, text_eq_iff k h)

distinct-NoRepeat : (hs : List Text) → NoRepeat (distinct hs)
unfolding distinct
distinct-NoRepeat [] = tt
distinct-NoRepeat (k ∷ hs) = elim (Bool-cases (lists k (distinct hs))) [
  | inl again ↦ rw again (distinct-NoRepeat hs)
  | inr new ↦ rw new (new, distinct-NoRepeat hs)
]

enter-folded :
    (at : ℕ) (running : Table Spell) (hs : List Text) (h : Text)
    → NoRepeat hs
    → lookup h (foldl (enter at) running hs)
      ≡ (if lists h hs then some (entered at (lookup h running)) else lookup h running)
enter-folded at running [] h n = ground arith
enter-folded at running (k ∷ hs) h n =
    enter-folded at (enter at running k) hs h n.1
    ∙ ground (arith, enter_lem at running k h, text_eq_iff k h, n.0)

entered-Unique :
    (at : ℕ) (running : Table Spell) (hs : List Text)
    → Unique running
    → Unique (foldl (enter at) running hs)
entered-Unique at running [] u = u
entered-Unique at running (k ∷ hs) u =
    entered-Unique at (enter at running k) hs (enter-Unique at running k u)

-- One observation, for one account.
pub running-observe :
    (st : State) (o : Observation) (h : Text)
    → lookup h (observe st o).running
      ≡ (if lists h o.maintainers then some (entered o.at (lookup h st.running)) else none)
unfolding observe
running-observe st o h =
    let left = close_gone o st.running st.out in
    enter-folded o.at left.running (distinct o.maintainers) h (distinct-NoRepeat o.maintainers)
    ∙ ground (arith, running-close_gone o st.running st.out h, lists-distinct h o.maintainers)

pub out-observe :
    (st : State) (o : Observation) (h : Text)
    → Unique st.running
    → spells_at (observe st o).out h
      ≡ spells_at st.out h
        ++ (if lists h o.maintainers then [] else ended o.at (lookup h st.running))
unfolding observe
out-observe st o h u = out-close_gone o st.running st.out h u

pub observe-Unique :
    (st : State) (o : Observation) → Unique st.running → Unique (observe st o).running
unfolding observe
observe-Unique st o u =
    entered-Unique o.at (close_gone o st.running st.out).running (distinct o.maintainers)
      (close_gone-Unique o st.running st.out u)

pub spells_at-close_all :
    (out : Table (List Spell)) (running : Table Spell) (h : Text)
    → Unique running
    → spells_at (close_all out running) h ≡ spells_at out h ++ remaining (lookup h running)
unfolding close_all lookup
spells_at-close_all out [] h u = ground (arith, append-nil (spells_at out h))
spells_at-close_all out ((k, s) ∷ running) h u =
    spells_at-close_all (emit k s out) running h u.1
    ∙ ground
        (arith, emit_lem k h s out, text_eq_iff k h, u.0, append-nil (spells_at out h ++ s ∷ []))
