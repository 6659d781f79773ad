-- ===== src/Query/Roster.antt =====
-- internal/query/audit.go: from the versions that a search reached to the accounts that can publish
-- them. The edges of all chunks are read before the first one is looked at; the program looks at
-- each chunk as it comes, and an error drops everything either way.
pub mod Merged
pub mod Held
pub mod Listed
pub mod Reads
pub mod Answer
use mathlib.Core.List.{foldl}
use keyholders.Base.{
  ℕ, ◌-◌, Bool, ◌==◌, ltb, if◌then◌else◌, List, [], ◌∷◌, ◌++◌, Option, none, some, Text, Table,
  bytes, text_eq, text_lt, lookup, put, map, length, sort_by,
}
use keyholders.Query.Interval.{Interval, Set, empty, intersect, insert}
use keyholders.Query.Reach.{Edge, Outcome, ok, err, Result, set_at, has}
use keyholders.Query.Rows.{Props, Row, string_prop, interval_of}
use keyholders.Query.Urns.{npm_package_urn}
use keyholders.Query.Batch.{Database, Step, Reader, prepend, nothing, read_chunks}
use keyholders.Query.Expander.{call_for, counted_failure}
use keyholders.Query.Audit.{Keyholder, packages, package_urn_of}
use keyholders.Query.Cut.{reached_packages}
use keyholders.Semver.Version.{is_empty}

-- The edge from a package to its maintainer.
abbrev pub maintains_edge : Props → Props → Props → Edge
maintains_edge from to rel = record {
  from = string_prop from (bytes "urn");
  to = string_prop to (bytes "handle");
  valid = interval_of rel;
}

-- Here a row that is no path is passed over too.
unfoldable pub read_maintains : List Row → Step (List Edge)
read_maintains [] = nothing
read_maintains (Row.path (from ∷ to ∷ []) (rel ∷ []) ∷ rows) =
    prepend [] (maintains_edge from to rel ∷ []) (read_maintains rows)
read_maintains (row ∷ rows) = read_maintains rows

-- These reads are not counted.
abbrev pub maintains : Database → Reader Edge
maintains db = record {
  accepts = npm_package_urn;
  ask = λ valid. db (call_for (bytes "MAINTAINS") (bytes "incoming") valid);
  failure = counted_failure (bytes "read maintainers of ") (bytes " packages");
  trips = 0;
  read_rows = read_maintains;
}

-- The spans of one version, added to those of its package.
unfoldable pub merge_spans : Set → Set → Set
merge_spans merged [] = merged
merge_spans merged (i ∷ set) = merge_spans (insert merged i).0 set

unfoldable pub merge_version : Table Set → Text × Set → Table Set
merge_version coexisting (urn, set) =
    let pkg = package_urn_of urn in
    if is_empty pkg
    then coexisting
    else put pkg (merge_spans (set_at coexisting pkg) set) coexisting

-- `coexisting`: the packages with the spans over which any of their versions was reached.
unfoldable pub coexisting_packages : Table Set → Table Set
coexisting_packages coexistence = foldl merge_version [] coexistence

-- The packages of the union's versions, each once.
unfoldable pub union_packages : List Text → List Text
union_packages [] = []
union_packages (urn ∷ union) =
    let rest = union_packages union in
    if is_empty (package_urn_of urn)
    then rest
    else if has rest (package_urn_of urn)
    then rest
    else package_urn_of urn ∷ rest

-- The variables that the loops over edges and spans share.
pub record Holdings : Type 0 where
  pub by_handle : Table (Table Set)
  pub union_handles : List Text
  pub holders : Table (List Text)
  pub since : Table ℕ

abbrev pub add_once : Text → List Text → List Text
add_once u set = if has set u then set else set ++ u ∷ []

-- A missing key reads as the zero value.
abbrev pub through_at : Table (Table Set) → Text → Table Set
through_at by_handle handle = elim (lookup handle by_handle) [ none ↦ [] | some through ↦ through ]

abbrev pub names_at : Table (List Text) → Text → List Text
names_at holders pkg = elim (lookup pkg holders) [ none ↦ [] | some handles ↦ handles ]

abbrev pub earlier_since : Table ℕ → Text → ℕ → Table ℕ
earlier_since since handle from = elim (lookup handle since) [
  | none ↦ put handle from since
  | some prev ↦ if ltb from prev then put handle from since else since
]

-- One span over which the package of an edge was reached.
unfoldable pub hold_span : Edge → Holdings → Interval → Holdings
hold_span e s reached =
    let held = intersect reached e.valid in
    let through = through_at s.by_handle e.to in
    if empty held then s else record {
      by_handle = put e.to (put e.from (insert (set_at through e.from) held).0 through) s.by_handle;
      union_handles = s.union_handles;
      holders = put e.from (add_once e.to (names_at s.holders e.from)) s.holders;
      since = earlier_since s.since e.to e.valid.from;
    }

unfoldable pub hold_edge : Table Set → Holdings → Edge → Holdings
hold_edge coexisting s e =
    foldl (hold_span e)
      (record {
        by_handle = s.by_handle;
        union_handles = add_once e.to s.union_handles;
        holders = s.holders;
        since = s.since;
      })
      (set_at coexisting e.from)

abbrev pub no_holdings : Holdings
no_holdings = record { by_handle = []; union_handles = []; holders = []; since = [] }

unfoldable pub hold_edges : Table Set → List Edge → Holdings
hold_edges coexisting es = foldl (hold_edge coexisting) no_holdings es

abbrev pub since_at : Table ℕ → Text → ℕ
since_at since handle = elim (lookup handle since) [ none ↦ 0 | some from ↦ from ]

abbrev pub keyholder_of : Table ℕ → Text × Table Set → Keyholder
keyholder_of since (handle, through) = record {
  handle = handle;
  through = through;
  since = since_at since handle;
}

-- The callback of the sort: most packages first, then by handle.
abbrev pub wider_reach : Keyholder → Keyholder → Bool
wider_reach a b =
    if packages a == packages b then text_lt a.handle b.handle else ltb (packages b) (packages a)

-- How many accounts hold each reached package, and how many the union graph names.
pub record Roster : Type 0 where
  pub count : Table ℕ
  pub union : ℕ

unfoldable pub count_holders : Table (List Text) → Table Set → Table ℕ
count_holders holders [] = []
count_holders holders ((pkg, set) ∷ coexisting) =
    (pkg, length (names_at holders pkg)) ∷ count_holders holders coexisting

unfoldable pub roster_of : Table Set → List Edge → List Keyholder × Roster
roster_of coexisting es =
    let s = hold_edges coexisting es in
    (
      sort_by wider_reach (map (keyholder_of s.since) s.by_handle),
      record { count = count_holders s.holders coexisting; union = length s.union_handles },
    )

unfoldable pub find_keyholders : Database → Result → Outcome (List Keyholder × Roster)
find_keyholders db reach =
    elim (read_chunks (maintains db) (sort_by text_lt (union_packages reach.union))).result [
      | err e ↦ err e
      | ok es ↦ ok (roster_of (coexisting_packages reach.coexistence) es)
    ]

unfoldable pub reached_package_list : Table Set → List Text
reached_package_list coexistence = sort_by text_lt (reached_packages coexistence)
