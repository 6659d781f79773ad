-- ===== src/Query/Proof.antt =====
-- internal/query/proof.go: a path whose edges share an instant, from what a project locks to what it
-- reaches. The database is a parameter here too; its calls name a target and a length.
pub mod Chains
pub mod Shortest
use mathlib.Core.List.{foldl}
use keyholders.Base.{
  ℕ, zero, suc, ltb, ◌==◌, ◌+◌, Bool, true, false, ◌&&◌, if◌then◌else◌, List, [], ◌∷◌, ◌++◌, Option,
  none, some, Text, Table, text_eq, text_lt, bytes, filter, length, take, drop, map, sort_by, Read,
}
use keyholders.Query.Interval.{Interval, Set, always, empty, intersect}
use keyholders.Query.Reach.{Result, Entry, default_max_depth}
use keyholders.Query.Rows.{Props, Row, string_prop, interval_of}
use keyholders.Query.Urns.{npm_urn, quote_all}
use keyholders.Query.Batch.{source_chunk, result_limit}
use keyholders.Query.Audit.{Keyholder}
use keyholders.Query.Cut.{versions_of}

pub record Hop : Type 0 where
  pub from : Text
  pub to : Text
  pub range : Text
  pub valid : Interval

pub record Chain : Type 0 where
  pub hops : List Hop
  pub valid : Interval

unfoldable pub nodes : Chain → List Text
nodes c = elim c.hops [ [] ↦ [] | h ∷ hops ↦ h.from ∷ map (λ (x : Hop). x.to) (h ∷ hops) ]

abbrev pub hop_of : Props → Props → Props → Hop
hop_of from to rel = record {
  from = string_prop from (bytes "urn");
  to = string_prop to (bytes "urn");
  range = string_prop rel (bytes "range");
  valid = interval_of rel;
}

-- The loop over the relationships, with the hops before and the span they share. Nodes that do not
-- match the relationships were refused before.
unfoldable pub chain_from : Chain → List Props → List Props → Option Chain
chain_from chain nodes [] = some chain
chain_from chain (from ∷ to ∷ nodes) (rel ∷ rels) =
    let hop = hop_of from to rel in
    let valid = intersect chain.valid hop.valid in
    let rest =
      chain_from (record { hops = chain.hops ++ hop ∷ []; valid = valid }) (to ∷ nodes) rels in
    if empty valid then none else rest
chain_from chain nodes (rel ∷ rels) = none

unfoldable pub coexistence_chain : List Props → List Props → Option Chain
coexistence_chain nodes [] = none
coexistence_chain nodes (rel ∷ rels) =
    if length nodes == length (rel ∷ rels) + 1
    then chain_from (record { hops = []; valid = always }) nodes (rel ∷ rels)
    else none

-- The shorter of the best chain so far and a new one, which has to be shorter.
abbrev pub better : Option Chain → Chain → Option Chain
better none c = some c
better (some best) c = if ltb (length c.hops) (length best.hops) then some c else some best

-- The loop over the rows.
unfoldable pub consider : Option Chain → List Row → Option Chain
consider best [] = best
consider best (Row.path nodes rels ∷ rows) = elim (coexistence_chain nodes rels) [
  | none ↦ consider best rows
  | some c ↦ consider (better best c) rows
]
consider best (row ∷ rows) = consider best rows

pub record PathCall : Type 0 where
  pub source_values : Text
  pub target : Text
  pub max_len : ℕ
  pub result_limit : ℕ

abbrev pub Paths : Type 0
Paths = PathCall → Read (List Row)

pub data Error : Type 0 where
  not_version_urn : Text → Error
  proof_path_to : Text → Text → Error

pub data Outcome (A : Type 0) : Type 0 where
  ok : A → Outcome A
  err : Error → Outcome A

-- The slices of the loop over the sources; the first number bounds them.
unfoldable pub chunks_of : ℕ → List Text → List (List Text)
chunks_of zero valid = []
chunks_of (suc rounds) [] = []
chunks_of (suc rounds) (u ∷ valid) =
    take source_chunk (u ∷ valid) ∷ chunks_of rounds (drop source_chunk (u ∷ valid))

abbrev pub path_call : Text → ℕ → List Text → PathCall
path_call target max_len chunk = record {
  source_values = quote_all chunk;
  target = target;
  max_len = max_len;
  result_limit = result_limit;
}

unfoldable pub search_chunks :
    Paths → Text → ℕ → Option Chain → List (List Text) → Outcome (Option Chain)
search_chunks db target max_len best [] = Outcome.ok best
search_chunks db target max_len best (chunk ∷ chunks) = elim (db (path_call target max_len chunk)) [
  | Read.failed e ↦ Outcome.err (Error.proof_path_to target e)
  | Read.got rows ↦ search_chunks db target max_len (consider best rows) chunks
]

abbrev pub length_bound : ℕ → ℕ
length_bound max_len = if max_len == 0 then default_max_depth else max_len

unfoldable pub proof_path : Paths → List Text → Text → ℕ → Outcome (Option Chain)
proof_path db sources target max_len =
    let valid = filter npm_urn sources in
    if npm_urn target
    then search_chunks db target (length_bound max_len) none (chunks_of (length valid) valid)
    else Outcome.err (Error.not_version_urn target)

pub record PackageChain : Type 0 where
  pub package_name : Text
  pub chain : Option Chain

abbrev pub source_urns : List Entry → List Text
source_urns [] = []
source_urns (s ∷ sources) = s.urn ∷ source_urns sources

unfoldable pub locked_versions : Result → List Text
locked_versions reach = sort_by text_lt (source_urns reach.sources)

abbrev pub keys_of : Table Set → List Text
keys_of [] = []
keys_of ((pkg, spans) ∷ through) = pkg ∷ keys_of through

-- The first account with the handle; the flag says whether it holds anything.
unfoldable pub held_packages : List Keyholder → Text → List Text × Bool
held_packages [] handle = ([], false)
held_packages (k ∷ roster) handle =
    if text_eq k.handle handle
    then (sort_by text_lt (keys_of k.through), ltb 0 (length k.through))
    else held_packages roster handle

-- The loop over the targets of one package.
unfoldable pub package_chain :
    Paths → List Text → ℕ → Option Chain → List Text → Outcome (Option Chain)
package_chain db sources depth best [] = Outcome.ok best
package_chain db sources depth best (target ∷ versions) =
    elim (proof_path db sources target depth) [
      | Outcome.err e ↦ Outcome.err e
      | Outcome.ok none ↦ package_chain db sources depth best versions
      | Outcome.ok (some c) ↦ package_chain db sources depth (better best c) versions
    ]

abbrev pub add_chain :
    Text → Option Chain → Outcome (List PackageChain) → Outcome (List PackageChain)
add_chain pkg chain (Outcome.ok rest) =
    Outcome.ok (record { package_name = pkg; chain = chain } ∷ rest)
add_chain pkg chain (Outcome.err e) = Outcome.err e

unfoldable pub holder_chains : Paths → Result → List Text → ℕ → Outcome (List PackageChain)
holder_chains db reach [] depth = Outcome.ok []
holder_chains db reach (pkg ∷ packages) depth =
    let rest = holder_chains db reach packages depth in
    elim (package_chain db (locked_versions reach) depth none
      (sort_by text_lt (versions_of reach.coexistence pkg))) [
        | Outcome.err e ↦ Outcome.err e
        | Outcome.ok chain ↦ add_chain pkg chain rest
      ]
