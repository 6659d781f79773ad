-- ===== src/Incident/Bisect.antt =====
-- internal/incident/bisect.go: the first affected release of a package, and what changed with it.
-- The graph behind the source is a parameter.
pub mod First
pub mod Difference
use mathlib.Core.List.{foldl}
use keyholders.Base.{
  ℕ, Bool, true, false, ltb, if◌then◌else◌, List, [], ◌∷◌, Option, none, some, Text, Table, text_eq,
  lookup, put, has_key, sort_by, Read,
}

pub record Release : Type 0 where
  pub version : Text
  pub published_at : ℕ

pub record Dependency : Type 0 where
  pub name : Text
  pub range : Text

pub record DependencyChange : Type 0 where
  pub name : Text
  pub from : Text
  pub to : Text

pub record DependencyDiff : Type 0 where
  pub added : List Dependency
  pub removed : List Dependency
  pub changed : List DependencyChange

-- The field `Package` is `package_name`. The zero value of `previous` is the empty version.
pub record Introduction : Type 0 where
  pub package_name : Text
  pub first_affected : Text
  pub published_at : ℕ
  pub previous : Text
  pub diff : DependencyDiff

-- The errors that `Bisect` returns, with the error of the source inside.
pub data Error : Type 0 where
  timeline_of : Text → Text → Error
  affected_versions_of : Text → Text → Error
  dependencies_of : Text → Text → Text → Error
  affects_no_version : Text → Text → Error

pub data Outcome (A : Type 0) : Type 0 where
  err : Error → Outcome A
  ok : A → Outcome A

pub record BisectSource : Type 0 where
  pub timeline : Text → Read (List Release)
  pub affected_versions : Text → Text → Read (Table Bool)
  pub dependencies : Text → Text → Read (List Dependency)

-- A missing key reads as false.
abbrev pub is_affected : Table Bool → Text → Bool
is_affected affected version = elim (lookup version affected) [ none ↦ false | some b ↦ b ]

abbrev pub earlier : Release → Release → Bool
earlier a b = ltb a.published_at b.published_at

-- The walk: the first affected release, with the one before it.
unfoldable pub first_affected :
    Table Bool → Option Release → List Release → Option (Option Release × Release)
first_affected affected previous [] = none
first_affected affected previous (rel ∷ timeline) =
    let later = first_affected affected (some rel) timeline in
    if is_affected affected rel.version then some (previous, rel) else later

abbrev pub add_range : Table Text → Dependency → Table Text
add_range ranges d = put d.name d.range ranges

unfoldable pub ranges_of : List Dependency → Table Text
ranges_of deps = foldl add_range [] deps

abbrev pub no_diff : DependencyDiff
no_diff = record { added = []; removed = []; changed = [] }

-- The loop over `after`; added first, then changed.
unfoldable pub compare_after :
    Table Text → List Dependency → List Dependency × List DependencyChange
compare_after before [] = ([], [])
compare_after before (d ∷ after) =
    let (added, changed) = compare_after before after in
    elim (lookup d.name before) [
      | none ↦ (d ∷ added, changed)
      | some range ↦
          if text_eq range d.range
          then (added, changed)
          else (added, record { name = d.name; from = range; to = d.range } ∷ changed)
    ]

-- The loop over `before`.
unfoldable pub removed_from : Table Text → List Dependency → List Dependency
removed_from after [] = []
removed_from after (d ∷ before) =
    let rest = removed_from after before in if has_key after d.name then rest else d ∷ rest

unfoldable pub diff_dependencies : BisectSource → Text → Text → Text → Outcome DependencyDiff
diff_dependencies src name from to = elim (src.dependencies name from) [
  | Read.failed e ↦ Outcome.err (Error.dependencies_of name from e)
  | Read.got before ↦ elim (src.dependencies name to) [
    | Read.failed e ↦ Outcome.err (Error.dependencies_of name to e)
    | Read.got after ↦
        let (added, changed) = compare_after (ranges_of before) after in
        Outcome.ok (record {
          added = added;
          removed = removed_from (ranges_of after) before;
          changed = changed;
        })
  ]
]

-- The end of `Bisect`, from what the walk found.
unfoldable pub introduce :
    BisectSource → Text → Text → Option (Option Release × Release) → Outcome Introduction
introduce src advisory_id name none = Outcome.err (Error.affects_no_version name advisory_id)
introduce src advisory_id name (some (none, first)) = Outcome.ok (record {
  package_name = name;
  first_affected = first.version;
  published_at = first.published_at;
  previous = [];
  diff = no_diff;
})
introduce src advisory_id name (some (some previous, first)) =
    elim (diff_dependencies src name previous.version first.version) [
      | Outcome.err e ↦ Outcome.err e
      | Outcome.ok diff ↦ Outcome.ok (record {
        package_name = name;
        first_affected = first.version;
        published_at = first.published_at;
        previous = previous.version;
        diff = diff;
      })
    ]

unfoldable pub bisect : BisectSource → Text → Text → Outcome Introduction
bisect src advisory_id name = elim (src.timeline name) [
  | Read.failed e ↦ Outcome.err (Error.timeline_of name e)
  | Read.got timeline ↦ elim (src.affected_versions advisory_id name) [
    | Read.failed e ↦ Outcome.err (Error.affected_versions_of name e)
    | Read.got affected ↦
        introduce src advisory_id name (first_affected affected none (sort_by earlier timeline))
  ]
]
