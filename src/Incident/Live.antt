-- ===== src/Incident/Live.antt =====
-- internal/incident/resolved_while_live.go: who locked a dependent while its resolution into the
-- compromised version held. The graph behind the source is a parameter.
pub mod Exposed
use keyholders.Base.{
  ℕ, Bool, true, false, ◌||◌, ltb, leb, if◌then◌else◌, List, [], ◌∷◌, ◌++◌, Text, Read,
}

pub record ResolutionWindow : Type 0 where
  pub dependent_name : Text
  pub dependent_version : Text
  pub valid_from : ℕ
  pub valid_to : ℕ

pub record LockedAt : Type 0 where
  pub project : Text
  pub at : ℕ

pub record LiveSource : Type 0 where
  pub resolvers_into : Text → Text → Read (List ResolutionWindow)
  pub projects_locking : Text → Text → Read (List LockedAt)

pub record Exposure : Type 0 where
  pub project : Text
  pub locked_at : ℕ
  pub dependent : Text
  pub valid_from : ℕ
  pub valid_to : ℕ

-- The errors that `ResolvedWhileLive` returns, with the error of the source inside.
pub data Error : Type 0 where
  resolvers_of : Text → Text → Text → Error
  projects_of : Text → Text → Text → Error

pub data Outcome (A : Type 0) : Type 0 where
  err : Error → Outcome A
  ok : A → Outcome A

abbrev pub exposure : ResolutionWindow → LockedAt → Exposure
exposure w l = record {
  project = l.project;
  locked_at = l.at;
  dependent = w.dependent_name ++ b'@' ∷ w.dependent_version;
  valid_from = w.valid_from;
  valid_to = w.valid_to;
}

-- The inner loop.
unfoldable pub exposures : ResolutionWindow → List LockedAt → List Exposure
exposures w [] = []
exposures w (l ∷ locks) =
    let rest = exposures w locks in
    if ltb l.at w.valid_from || leb w.valid_to l.at then rest else exposure w l ∷ rest

-- The outer loop; `out` is what the windows before gave.
unfoldable pub over_windows :
    LiveSource → List Exposure → List ResolutionWindow → Outcome (List Exposure)
over_windows src out [] = Outcome.ok out
over_windows src out (w ∷ windows) =
    elim (src.projects_locking w.dependent_name w.dependent_version) [
      | Read.failed e ↦ Outcome.err (Error.projects_of w.dependent_name w.dependent_version e)
      | Read.got locks ↦ over_windows src (out ++ exposures w locks) windows
    ]

unfoldable pub resolved_while_live : LiveSource → Text → Text → Outcome (List Exposure)
resolved_while_live src name version = elim (src.resolvers_into name version) [
  | Read.failed e ↦ Outcome.err (Error.resolvers_of name version e)
  | Read.got windows ↦ over_windows src [] windows
]
