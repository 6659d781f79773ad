-- ===== src/Advisory/Ranges.antt =====
-- internal/advisory/ranges.go, with the range and event of internal/advisory/osv.go.
pub mod Walk
pub mod Affected
use Prim.Native.Nat.{Ordering, lt, gt}
use keyholders.Base.{
  ℕ, Bool, true, false, if◌then◌else◌, List, [], ◌∷◌, Option, none, some, Text, bytes, text_eq,
  sort_by,
}
use keyholders.Semver.Version.{Version, zero_version, is_empty, parse, compare}

pub record Release : Type 0 where
  pub version : Text
  pub published_at : ℕ

-- One transition of a range; the fields that are not set are empty.
pub record Event : Type 0 where
  pub introduced : Text
  pub fixed : Text
  pub last_affected : Text

pub record Range : Type 0 where
  pub type : Text
  pub events : List Event

pub data EventKind : Type 0 where
  introduced fixed last_affected : EventKind

pub record Boundary : Type 0 where
  pub version : Version
  pub kind : EventKind

-- "0" stands for the beginning.
unfoldable pub parse_boundary : Text → Option Version
parse_boundary s = if text_eq s (bytes "0") then some zero_version else parse s

abbrev pub boundary : EventKind → Option Version → Option Boundary
boundary k none = none
boundary k (some v) = some (record { version = v; kind = k })

-- The first field that is set decides; an event whose version does not parse is passed over.
unfoldable pub boundary_of : Event → Option Boundary
boundary_of e =
    if is_empty e.introduced
    then if is_empty e.fixed
      then if is_empty e.last_affected
        then none
        else boundary EventKind.last_affected (parse e.last_affected)
      else boundary EventKind.fixed (parse e.fixed)
    else boundary EventKind.introduced (parse_boundary e.introduced)

unfoldable pub boundaries : List Event → List Boundary
boundaries [] = []
boundaries (e ∷ events) = elim (boundary_of e) [
  | none ↦ boundaries events
  | some b ↦ b ∷ boundaries events
]

abbrev pub below : Version → Version → Bool
below v o = elim (compare v o) [ lt ↦ true | _ ↦ false ]

abbrev pub beyond : Version → Version → Bool
beyond v o = elim (compare v o) [ gt ↦ true | _ ↦ false ]

-- The callback of the sort.
abbrev pub before : Boundary → Boundary → Bool
before a b = below a.version b.version

-- The switch of `isAffected`.
unfoldable pub transition : Version → Bool → Boundary → Bool
transition v affected b = elim b.kind [
  | EventKind.introduced ↦ true
  | EventKind.fixed ↦ false
  | EventKind.last_affected ↦ if beyond v b.version then false else affected
]

-- The loop, which leaves at the first boundary above the version.
unfoldable pub walk : Version → Bool → List Boundary → Bool
walk v affected [] = affected
walk v affected (b ∷ bounds) =
    let rest = walk v (transition v affected b) bounds in
    if below v b.version then affected else rest

unfoldable pub is_affected : Version → List Boundary → Bool
is_affected v bounds = walk v false bounds

-- The loop over the releases.
unfoldable pub affected_among : List Boundary → List Release → List Release
affected_among bounds [] = []
affected_among bounds (rel ∷ releases) =
    let rest = affected_among bounds releases in
    elim (parse rel.version) [
      | none ↦ rest
      | some v ↦ if is_affected v bounds then rel ∷ rest else rest
    ]

unfoldable pub affected_versions : Range → List Release → List Release
affected_versions r releases =
    if text_eq r.type (bytes "GIT") then [] else elim (boundaries r.events) [
      | [] ↦ []
      | b ∷ bounds ↦ affected_among (sort_by before (b ∷ bounds)) releases
    ]
