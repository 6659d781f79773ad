-- ===== src/Resolve/Windows.antt =====
-- internal/resolve/windows.go. Instants are natural numbers of seconds: a publish time of zero or
-- below is zero here.
pub mod Order
pub mod Steps
pub mod Clamp
pub mod Answer
use Prim.Native.Nat.{Ordering, lt, gt}
use keyholders.Base.{
  ℕ, Bool, true, false, ◌&&◌, ltb, leb, ◌==◌, if◌then◌else◌, List, [], ◌∷◌, ◌++◌, Option, none,
  some, Text, sort_by,
}
use keyholders.Query.Interval.{open_interval}
use keyholders.Semver.Version.{Version, parse, compare}
use keyholders.Semver.Range.{Range, satisfies}

pub record Release : Type 0 where
  pub version : Text
  pub published_at : ℕ

pub record Window : Type 0 where
  pub version : Text
  pub from : ℕ
  pub to : ℕ

pub record Candidate : Type 0 where
  pub version : Version
  pub raw : Text
  pub published : ℕ

-- A release without a publish time, or whose version does not parse or is not in the range, is
-- passed over.
unfoldable pub candidate_of : Range → Release → Option Candidate
candidate_of r rel = if rel.published_at == 0 then none else elim (parse rel.version) [
  | none ↦ none
  | some v ↦
      if satisfies r v
      then some (record { version = v; raw = rel.version; published = rel.published_at })
      else none
]

unfoldable pub admit : Range → List Release → List Candidate
admit r [] = []
admit r (rel ∷ releases) = elim (candidate_of r rel) [
  | none ↦ admit r releases
  | some c ↦ c ∷ admit r releases
]

-- The callback of the sort: publish order, and precedence within one second.
abbrev pub earlier : Candidate → Candidate → Bool
earlier a b =
    if a.published == b.published
    then elim (compare a.version b.version) [ lt ↦ true | _ ↦ false ]
    else ltb a.published b.published

abbrev pub above : Candidate → Candidate → Bool
above c best = elim (compare c.version best.version) [ gt ↦ true | _ ↦ false ]

abbrev pub window : Candidate → ℕ → Window
window c to = record { version = c.raw; from = c.published; to = to }

-- The loop: `closed` are the windows whose end is known, and the last one is that of `best`.
unfoldable pub extend : List Window → Candidate → List Candidate → List Window
extend closed best [] = closed ++ window best open_interval ∷ []
extend closed best (c ∷ rest) =
    let keep = extend closed best rest in
    let step = extend (closed ++ window best c.published ∷ []) c rest in
    if above c best then step else keep

-- One window against the instant of the declaration.
unfoldable pub clamp_one : Window → ℕ → Option Window
clamp_one w declared_at =
    if ltb 0 declared_at && leb w.to declared_at
    then none
    else let from = if ltb 0 declared_at && ltb w.from declared_at then declared_at else w.from in
      if leb w.to from then none else some (record w { from = from })

unfoldable pub clamp : List Window → ℕ → List Window
clamp [] declared_at = []
clamp (w ∷ ws) declared_at = elim (clamp_one w declared_at) [
  | none ↦ clamp ws declared_at
  | some w' ↦ w' ∷ clamp ws declared_at
]

unfoldable pub open_windows : List Candidate → List Window
open_windows [] = []
open_windows (best ∷ rest) = extend [] best rest

unfoldable pub windows : List Release → Range → ℕ → List Window
windows releases r declared_at =
    clamp (open_windows (sort_by earlier (admit r releases))) declared_at
