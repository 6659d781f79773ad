-- ===== src/Query/Who.antt =====
-- internal/query/who.go: what one account reaches, from the packages that it holds inward through their
-- dependents.
pub mod Sources
use mathlib.Core.List.{foldl}
use keyholders.Base.{
  ℕ, ◌+◌, ◌==◌, Bool, true, false, ltb, if◌then◌else◌, List, [], ◌∷◌, ◌++◌, Option, none, some,
  Text, Table, bytes, text_eq, text_lt, lookup, put, map, length, filter, sort_by, Read,
}
use keyholders.Graph.Id.{maintainer_urn}
use keyholders.Query.Interval.{Interval, Set, open_interval, always, empty, intersect, insert}
use keyholders.Query.Reach.{Entry, Options, Error, Outcome, ok, err, Result, set_at, has, reach}
use keyholders.Query.Rows.{Props, Row, VersionAttrs, string_prop, interval_of, version_attrs}
use keyholders.Query.Urns.{name_char, some_of, npm_package_urn}
use keyholders.Query.Batch.{Database, Step, Reader, prepend, nothing, read_chunks}
use keyholders.Query.Expander.{GraphExpander, call_for, counted_failure, expander}
use keyholders.Query.Cut.{reached_packages}
use keyholders.Query.Roster.{union_packages}
use keyholders.Semver.Version.{is_empty}

-- The field `Package` is `package_name`.
pub record Held : Type 0 where
  pub package_name : Text
  pub spans : Set
  pub versions : ℕ

pub record Who : Type 0 where
  pub handle : Text
  pub holds : List Held
  pub reach : Option Result
  pub dependents : List Text
  pub union_dependents : ℕ

-- `^[a-z0-9._~-]+$`
abbrev pub npm_handle : Text → Bool
npm_handle handle = some_of name_char handle

-- The body of the loop over the edges of an account.
abbrev pub hold_row : Table Set → Row → Table Set
hold_row spans (Row.path (from ∷ to ∷ []) (rel ∷ [])) =
    let pkg = string_prop to (bytes "urn") in
    if is_empty pkg then spans else put pkg (insert (set_at spans pkg) (interval_of rel)).0 spans
hold_row spans row = spans

abbrev pub held_of : Text × Set → Held
held_of (pkg, set) = record { package_name = pkg; spans = set; versions = 0 }

abbrev pub by_package : Held → Held → Bool
by_package a b = text_lt a.package_name b.package_name

unfoldable pub holdings : Database → Text → Outcome (List Held)
holdings db handle =
    elim (db (
      call_for (bytes "MAINTAINS") (bytes "outgoing") (maintainer_urn (bytes "npm") handle ∷ []))) [
        | Read.failed e ↦
            err (Error.read (bytes "read what " ++ (handle ++ (bytes " maintains: " ++ e))))
        | Read.got rows ↦ ok (sort_by by_package (map held_of (foldl hold_row [] rows)))
      ]

-- The versions of packages; the relationships of a row are not looked at.
unfoldable pub read_version_rows : List Row → Step (List (Text × VersionAttrs))
read_version_rows [] = nothing
read_version_rows (Row.path (from ∷ to ∷ []) rels ∷ rows) =
    let rest = read_version_rows rows in
    let attrs = version_attrs to in
    if is_empty (string_prop from (bytes "urn"))
    then rest
    else if is_empty attrs.urn
    then rest
    else prepend [] ((string_prop from (bytes "urn"), attrs) ∷ []) rest
read_version_rows (row ∷ rows) = read_version_rows rows

-- The pattern filters once more what the caller has filtered already.
abbrev pub versions_reader : Database → Reader (Text × VersionAttrs)
versions_reader db = record {
  accepts = npm_package_urn;
  ask = λ valid. db (call_for (bytes "HAS_VERSION") (bytes "outgoing") valid);
  failure = counted_failure (bytes "read versions of ") (bytes " packages");
  trips = 1;
  read_rows = read_version_rows;
}

-- When a version exists: without a publish time, always.
abbrev pub existed : VersionAttrs → Interval
existed v =
    if v.published_at == 0 then always else record { from = v.published_at; to = open_interval }

-- The loop over the spells of a package, for one version.
unfoldable pub live_entries : VersionAttrs → Interval → Set → List Entry
live_entries v within [] = []
live_entries v within (spell ∷ spells) =
    let live = intersect (intersect (existed v) spell) within in
    let rest = live_entries v within spells in
    if empty live then rest else record { urn = v.urn; valid = live } ∷ rest

unfoldable pub version_entries : Table Set → Interval → List (Text × VersionAttrs) → List Entry
version_entries spans within [] = []
version_entries spans within ((pkg, v) ∷ items) =
    live_entries v within (set_at spans pkg) ++ version_entries spans within items

abbrev pub by_urn : Entry → Entry → Bool
by_urn a b = if text_eq a.urn b.urn then ltb a.valid.from b.valid.from else text_lt a.urn b.urn

unfoldable pub count_of : List (Text × VersionAttrs) → Text → ℕ
count_of [] pkg = 0
count_of ((p, v) ∷ items) pkg = (if text_eq p pkg then 1 else 0) + count_of items pkg

-- The sources of the search, and the versions that were read, which the counts are taken of.
unfoldable pub versions_of :
    Database → List Text → Table Set → Interval → Outcome (List Entry × List (Text × VersionAttrs))
versions_of db packages spans within =
    elim (read_chunks (versions_reader db) (filter npm_package_urn packages)).result [
      | err e ↦ err e
      | ok items ↦ ok (sort_by by_urn (version_entries spans within items), items)
    ]

abbrev pub package_names : List Held → List Text
package_names held = map (λ (h : Held). h.package_name) held

abbrev pub spans_of : List Held → Table Set
spans_of [] = []
spans_of (h ∷ held) = (h.package_name, h.spans) ∷ spans_of held

abbrev pub with_count : List (Text × VersionAttrs) → Held → Held
with_count items h = record {
  package_name = h.package_name;
  spans = h.spans;
  versions = count_of items h.package_name;
}

-- The packages that are not the account's own.
unfoldable pub without_own : List Text → List Text → List Text
without_own own [] = []
without_own own (pkg ∷ packages) =
    let rest = without_own own packages in if has own pkg then rest else pkg ∷ rest

abbrev pub who_of : Text → List Held → Result → Who
who_of handle held r = record {
  handle = handle;
  holds = held;
  reach = some r;
  dependents = sort_by text_lt (without_own (package_names held) (reached_packages r.coexistence));
  union_dependents = length (without_own (package_names held) (union_packages r.union));
}

-- An answer without a search.
abbrev pub unreached : Text → List Held → Who
unreached handle held = record {
  handle = handle;
  holds = held;
  reach = none;
  dependents = [];
  union_dependents = 0;
}

abbrev pub inbound : Database → GraphExpander
inbound db = record { db = db; edge_type = bytes "RESOLVES_TO"; direction = bytes "incoming" }

abbrev pub search_inbound : Database → Text → Options → List Held → List Entry → Outcome Who
search_inbound db handle opts held [] = ok (unreached handle held)
search_inbound db handle opts held (s ∷ sources) =
    elim (reach (expander (inbound db)) (s ∷ sources) opts) [
      | err e ↦ err e
      | ok r ↦ ok (who_of handle held r)
    ]

abbrev pub who_holds : Database → Text → Options → List Held → Outcome Who
who_holds db handle opts [] = ok (unreached handle [])
who_holds db handle opts (h ∷ held) =
    elim (versions_of db (package_names (h ∷ held)) (spans_of (h ∷ held)) opts.within) [
      | err e ↦ err e
      | ok (sources, items) ↦
          search_inbound db handle opts (map (with_count items) (h ∷ held)) sources
    ]

-- `quoted` is the verb `%q` of Go's package fmt.
unfoldable pub who_is : (Text → Text) → Database → Text → Options → Outcome Who
who_is quoted db handle opts =
    if npm_handle handle
    then elim (holdings db handle) [ err e ↦ err e | ok held ↦ who_holds db handle opts held ]
    else err (Error.read (bytes "not an npm handle: " ++ quoted handle))
