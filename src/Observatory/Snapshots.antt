-- ===== src/Observatory/Snapshots.antt =====
-- The rest of internal/observatory/snapshot.go: the edges that are live at each epoch, over a
-- source of timelines and dependencies that is a parameter.
pub mod Loops
pub mod Versions
pub mod Live
use mathlib.Core.List.{foldl}
use keyholders.Base.{
  ℕ, Bool, ◌==◌, true, false, if◌then◌else◌, List, [], ◌∷◌, ◌++◌, Option, none, some, Text, Table,
  text_eq, Read,
}
use keyholders.Sketch.Engine.{Edge}
use keyholders.Observatory.Snapshot.{Release, current_version}

pub record Source : Type 0 where
  pub timeline : Text → Read (List Release)
  pub dependencies : Text → Text → Read (List Text)

-- The errors that `Snapshots` returns, with the error of the source inside.
pub data Error : Type 0 where
  timeline_of : Text → Text → Error
  dependencies_of : Text → Text → Text → Error

pub data Outcome (A : Type 0) : Type 0 where
  err : Error → Outcome A
  ok : A → Outcome A

-- The result: a map from epochs to edges.
abbrev pub Epochs : Type 0
Epochs = List (ℕ × List Edge)

abbrev pub edges_at : Epochs → ℕ → List Edge
edges_at [] e = []
edges_at ((f, edges) ∷ out) e = if f == e then edges else edges_at out e

-- `out[e] = nil` for every epoch; an epoch that stands twice is one key.
abbrev pub set_empty : ℕ → Epochs → Epochs
set_empty e [] = (e, []) ∷ []
set_empty e ((f, edges) ∷ out) = if f == e then (f, []) ∷ out else (f, edges) ∷ set_empty e out

abbrev pub empty_epochs : Epochs → List ℕ → Epochs
empty_epochs out [] = out
empty_epochs out (e ∷ epochs) = empty_epochs (set_empty e out) epochs

-- `out[e] = append(out[e], edge)`
unfoldable pub append_at : ℕ → Edge → Epochs → Epochs
append_at e edge [] = (e, edge ∷ []) ∷ []
append_at e edge ((f, edges) ∷ out) =
    let rest = append_at e edge out in
    if f == e then (f, edges ++ edge ∷ []) ∷ out else (f, edges) ∷ rest

-- `epochsByVersion[version] = append(..., e)`
unfoldable pub add_epoch : Text → ℕ → Table (List ℕ) → Table (List ℕ)
add_epoch version e [] = (version, e ∷ []) ∷ []
add_epoch version e ((v, epochs) ∷ by_version) =
    let rest = add_epoch version e by_version in
    if text_eq v version then (v, epochs ++ e ∷ []) ∷ by_version else (v, epochs) ∷ rest

-- One epoch of one package; without a current version it adds nothing.
unfoldable pub file_epoch : List Release → Table (List ℕ) → ℕ → Table (List ℕ)
file_epoch releases by_version e = elim (current_version releases e) [
  | none ↦ by_version
  | some rel ↦ add_epoch rel.version e by_version
]

unfoldable pub epochs_by_version : List Release → List ℕ → Table (List ℕ)
epochs_by_version releases epochs = foldl (file_epoch releases) [] epochs

abbrev pub add_dep : Text → ℕ → Epochs → Text → Epochs
add_dep name e out dep = append_at e (record { from = name; to = dep }) out

abbrev pub add_deps : Text → List Text → Epochs → ℕ → Epochs
add_deps name deps out e = foldl (add_dep name e) out deps

-- One version of one package, with its epochs.
unfoldable pub add_version : Source → Text → Epochs → Text × List ℕ → Outcome Epochs
add_version src name out (version, at_epochs) = elim (src.dependencies name version) [
  | Read.failed e ↦ Outcome.err (Error.dependencies_of name version e)
  | Read.got deps ↦ Outcome.ok (foldl (add_deps name deps) out at_epochs)
]

-- A loop whose body may return an error.
unfoldable pub each : {A S : Type 0} → (S → A → Outcome S) → S → List A → Outcome S
each body s [] = Outcome.ok s
each body s (a ∷ items) = elim (body s a) [
  | Outcome.err e ↦ Outcome.err e
  | Outcome.ok next ↦ each body next items
]

unfoldable pub add_package : Source → List ℕ → Epochs → Text → Outcome Epochs
add_package src epochs out name = elim (src.timeline name) [
  | Read.failed e ↦ Outcome.err (Error.timeline_of name e)
  | Read.got releases ↦ each (add_version src name) out (epochs_by_version releases epochs)
]

unfoldable pub snapshots : Source → List Text → List ℕ → Outcome Epochs
snapshots src names epochs = each (add_package src epochs) (empty_epochs [] epochs) names
