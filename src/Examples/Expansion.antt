-- ===== src/Examples/Expansion.antt =====
-- internal/query/expander.go and internal/query/audit.go over a database with two edges: one version
-- resolves to another, whose package has a maintainer.
use keyholders.Base.{
  ℕ, ◌≡◌, ◌↔◌, ◌∙◌, refl, sym, ◌⊎◌, inl, inr, Bool-cases, any, ◌&&◌, if◌then◌else◌, List, [], ◌∷◌,
  Text, bytes, text_eq, lookup, split, filter, Read,
}
use keyholders.Graph.Id.{version_urn}
use keyholders.Query.Interval.{always}
use keyholders.Query.Reach.{Edge, Result, Options, Entry, ok, reach}
use keyholders.Query.Reach.Rounds.{Serves}
use keyholders.Query.Reach.Answer.{reach_returns}
use keyholders.Query.Batch.Returns.{Returns, read_chunks-Returns}
use keyholders.Query.Rows.{Value, Props, Row, interval_of}
use keyholders.Query.Urns.{npm_urn, npm_package_urn, quote_all, some_of, name_char, version_char}
use keyholders.Query.Urns.Accepted.{npm_urn-version_urn}
use keyholders.Query.Urns.Quoting.{
  pieces, npm_urn-Lacks, npm_package_urn-Lacks, split-quote_all_accepted,
}
use keyholders.Query.Batch.{Database}
use keyholders.Query.Batch.Parts.{accepted, Procedure}
use keyholders.Query.Expander.{GraphExpander, edge_of, expansion, expander, out, read_rows}
use keyholders.Query.Expander.Serves.{Hop, source_of, expander-Serves}
use keyholders.Query.Audit.{Keyholder}
use keyholders.Query.Roster.{Roster, maintains_edge, maintains, find_keyholders}
use keyholders.Query.Roster.Listed.{Listed}
use keyholders.Query.Roster.Reads.{Maintains}
use keyholders.Query.Roster.Answer.{Exposed, MayPublish, find_keyholders_exact}
use keyholders.Examples.Lookups.{asked_for, lookup-Procedure}

npm_urn-version_urn_example :
    npm_urn (version_urn (bytes "npm") (bytes "JSONStream") (bytes "1.3.5"))
    ≡ (some_of name_char (bytes "JSONStream") && some_of version_char (bytes "1.3.5"))
npm_urn-version_urn_example =
    npm_urn-version_urn b'J' (bytes "SONStream") (bytes "1.3.5")
      (refl, (refl, (refl, (refl, (refl, (refl, (refl, (refl, (refl, (refl, tt))))))))))

split-quote_all_accepted_example :
    (split b'\''
        (quote_all (filter npm_urn (bytes "pkg:npm/a@1" ∷ bytes "x'" ∷ bytes "pkg:npm/b" ∷ [])))
      ≡ pieces (filter npm_urn (bytes "pkg:npm/a@1" ∷ bytes "x'" ∷ bytes "pkg:npm/b" ∷ [])))
    × (split b'\'' (
          quote_all
            (filter npm_package_urn (bytes "pkg:npm/a@1" ∷ bytes "x'" ∷ bytes "pkg:npm/b" ∷ [])))
        ≡ pieces
            (filter npm_package_urn (bytes "pkg:npm/a@1" ∷ bytes "x'" ∷ bytes "pkg:npm/b" ∷ [])))
split-quote_all_accepted_example =
    split-quote_all_accepted (bytes "pkg:npm/a@1" ∷ bytes "x'" ∷ bytes "pkg:npm/b" ∷ [])

abbrev a : Text
a = bytes "pkg:npm/a@1.0.0"

abbrev b : Text
b = bytes "pkg:npm/b@2.0.0"

abbrev b_package : Text
b_package = bytes "pkg:npm/b"

abbrev node : Text → Props
node urn = (bytes "urn", Value.text urn) ∷ []

abbrev account : Props
account = (bytes "handle", Value.text (bytes "mallory")) ∷ []

abbrev hop : Row
hop = Row.path (node a ∷ node b ∷ []) ([] ∷ [])

abbrev right : Row
right = Row.path (node b_package ∷ account ∷ []) ([] ∷ [])

abbrev a_to_b : Edge
a_to_b = record { from = a; to = b; valid = always }

abbrev b_to_mallory : Edge
b_to_mallory = record { from = b_package; to = bytes "mallory"; valid = always }

abbrev db : Database
db c =
    if text_eq c.edge_type (bytes "MAINTAINS")
    then asked_for b_package right c.source_values
    else asked_for a hop c.source_values

abbrev g : GraphExpander
g = record { db = db; edge_type = bytes "RESOLVES_TO"; direction = bytes "outgoing" }

abbrev graph : Text → List Edge
graph u = if text_eq a u then a_to_b ∷ [] else []

abbrev maintainers : Text → List Edge
maintainers u = if text_eq b_package u then b_to_mallory ∷ [] else []

edge_of-hop : edge_of (node a) (node b) [] ≡ a_to_b
unfolding interval_of lookup text_eq
edge_of-hop = refl

maintains_edge-right : maintains_edge (node b_package) account [] ≡ b_to_mallory
unfolding interval_of lookup text_eq
maintains_edge-right = refl

versions : Procedure source_of Hop (expansion g) graph
unfolding text_eq
versions =
    lookup-Procedure a hop a_to_b Hop (expansion g) (refl, refl) npm_urn-Lacks (λ valid. refl)
      (node a, node b, [], refl, sym edge_of-hop)
      (λ e (from, to, rel, p, q).
        let same : edge_of from to rel ≡ edge_of (node a) (node b) [] = cc in
        q ∙ same ∙ edge_of-hop)
      refl

rights : Procedure source_of Maintains (maintains db) maintainers
unfolding text_eq
rights =
    lookup-Procedure b_package right b_to_mallory Maintains (maintains db) (refl, refl)
      npm_package_urn-Lacks (λ valid. refl)
      (node b_package, account, [], refl, sym maintains_edge-right)
      (λ e (from, to, rel, p, q).
        let same : maintains_edge from to rel ≡ maintains_edge (node b_package) account [] = cc in
        q ∙ same ∙ maintains_edge-right)
      refl

expander-Serves_example : Serves (expander g) (accepted npm_urn graph)
expander-Serves_example = expander-Serves g graph versions

asked_for-cases :
    (u : Text) (row : Row) (values : Text)
    → (asked_for u row values ≡ Read.got (row ∷ [])) ⊎ (asked_for u row values ≡ Read.got [])
asked_for-cases u row values = elim (Bool-cases (any (text_eq u) (split b'\'' values))) [
  | inl asked ↦ inl (rw asked refl)
  | inr other ↦ inr (rw other refl)
]

expansion-answers :
    (valid : List Text)
    → (rows : List Row) × ((expansion g).ask valid ≡ Read.got rows) × Returns (read_rows rows)
unfolding text_eq read_rows
expansion-answers valid = elim (asked_for-cases a hop (quote_all valid)) [
  | inl e ↦ (hop ∷ [], e, (edge_of (node a) (node b) [] ∷ [], refl))
  | inr e ↦ ([], e, ([], refl))
]

maintains-answers :
    (valid : List Text) → (rows : List Row) × ((maintains db).ask valid ≡ Read.got rows)
unfolding text_eq
maintains-answers valid = elim (asked_for-cases b_package right (quote_all valid)) [
  | inl e ↦ (right ∷ [], e)
  | inr e ↦ ([], e)
]

abbrev pins : List Entry
pins = record { urn = a; valid = always } ∷ []

abbrev ever : Options
ever = record { within = always; max_depth = 12 }

search : (r : Result) × (reach (expander g) pins ever ≡ ok r)
unfolding out
search =
    reach_returns (expander g) pins ever
      (λ urns. read_chunks-Returns (expansion g) expansion-answers urns)

find_keyholders_exact_example :
    (roster : List Keyholder) × (counts : Roster) × (find_keyholders db search.0
      ≡ ok (roster, counts))
    × ((h pkg : Text) (t : ℕ)
        → Listed roster h pkg t ↔ (Exposed pins ever graph pkg t × MayPublish maintainers h pkg t))
find_keyholders_exact_example =
    find_keyholders_exact g db graph maintainers versions rights maintains-answers pins ever
      search.0 search.1
