-- ===== src/Lockfile/Npm.antt =====
-- internal/lockfile/npm.go: the three shapes of package-lock.json, from the decoded document.
pub mod Paths
use keyholders.Base.{
  ◌==◌, Bool, true, false, ◌&&◌, ◌||◌, not, if◌then◌else◌, List, [], ◌∷◌, ◌++◌, Option, none, some,
  Text, Table, bytes, lookup, Read,
}
use keyholders.Query.Reach.{has}
use keyholders.Lockfile.Words.{after_last, contains_text, trim_prefix}
use keyholders.Lockfile.Pins.{Pin, Format, Lockfile, normalise}
use keyholders.Semver.Version.{is_empty}

-- `deps` and `dev_deps` are the names of the two sections; empty where a section is no map of texts.
pub record Entry : Type 0 where
  pub name : Text
  pub version : Text
  pub dev : Bool
  pub link : Bool
  pub deps : List Text
  pub dev_deps : List Text

-- An entry of version 1, and its nested dependencies.
mutual
  pub data V1Entry : Type 0 where
    entry : Text → Bool → V1Entries → V1Entry

  pub data V1Entries : Type 0 where
    nil : V1Entries
    cons : Text → V1Entry → V1Entries → V1Entries

pub record Document : Type 0 where
  pub name : Text
  pub packages : Table Entry
  pub dependencies : V1Entries

abbrev pub marker : Text
marker = bytes "node_modules/"

unfoldable pub package_name_from_path : Text → Text
package_name_from_path path = elim (after_last marker path) [ none ↦ [] | some name ↦ name ]

abbrev pub direct_names : List Text → List Text → List Text
direct_names deps dev_deps = deps ++ dev_deps

-- Only an entry at the top can be what the root declared.
abbrev pub at_top : Text → Bool
at_top path = not (contains_text marker (trim_prefix marker path))

unfoldable pub npm_pins : List Text → Table Entry → List Pin
npm_pins direct [] = []
npm_pins direct ((path, e) ∷ packages) =
    let rest = npm_pins direct packages in
    let name = package_name_from_path path in
    if is_empty path || e.link
    then rest
    else if is_empty name || is_empty e.version
    then rest
    else record {
      name = name;
      version = e.version;
      direct = has direct name && at_top path;
      dev = e.dev;
    }
      ∷ rest

unfoldable pub collect_npm_v1 : Bool → V1Entries → List Pin
collect_npm_v1 top V1Entries.nil = []
collect_npm_v1 top (V1Entries.cons name (V1Entry.entry version dev nested) deps) =
    let here : List Pin =
      if is_empty version
      then []
      else record { name = name; version = version; direct = top; dev = dev } ∷ [] in
    here ++ (collect_npm_v1 false nested ++ collect_npm_v1 top deps)

abbrev pub lockfile_of : Text → List Pin → Lockfile
lockfile_of project pins =
    normalise (record { project = project; format = Format.npm; pins = pins })

abbrev pub parse_npm_document : Document → Lockfile
parse_npm_document doc = elim (lookup [] doc.packages) [
  | none ↦ lockfile_of doc.name (collect_npm_v1 true doc.dependencies)
  | some root ↦
      lockfile_of (if is_empty doc.name then root.name else doc.name)
        (npm_pins (direct_names root.deps root.dev_deps) doc.packages)
]

-- The decoded document, or the error of the decoder.
unfoldable pub parse_npm : Read Document → Read Lockfile
parse_npm (Read.failed e) = Read.failed (bytes "parse package-lock.json: " ++ e)
parse_npm (Read.got doc) = Read.got (parse_npm_document doc)
