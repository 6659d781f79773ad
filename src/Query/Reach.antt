-- ===== src/Query/Reach.antt =====
-- internal/query/reach.go: the union pass, which reads the graph through an expander, and the
-- replay, which walks the edges read with spans of validity. A context that is cancelled is an
-- expander that answers with an error; the rest of the context is not modelled.
pub mod Walk
pub mod Offers
pub mod Levels
pub mod Exact
pub mod Reads
pub mod Rounds
pub mod UnionPass
pub mod Answer
use mathlib.Core.List.{foldl}
use keyholders.Base.{
  ℕ, zero, suc, ◌+◌, ◌≡◌, refl, ◌⊎◌, inl, inr, Bool, true, false, ◌&&◌, ◌||◌, not, ltb, leb, ◌==◌,
  if◌then◌else◌, List, [], ◌∷◌, ◌++◌, Option, none, some, Text, Table, text_eq, lookup, put, length,
}
use keyholders.Query.Interval.{
  Interval, Set, open_interval, always, empty, intersect, contains, insert, holds_at,
}

pub record Edge : Type 0 where
  pub from : Text
  pub to : Text
  pub valid : Interval

-- A node with the span over which a path got there.
pub record Entry : Type 0 where
  pub urn : Text
  pub valid : Interval

pub record Frontier : Type 0 where
  pub depth : ℕ
  pub entries : List Entry

-- `OnFrontier` is not a field: the replay returns the frontiers that it reports.
pub record Options : Type 0 where
  pub within : Interval
  pub max_depth : ℕ

-- The error of a graph read, and the one that the union pass wraps it in.
pub data Error : Type 0 where
  read : Text → Error
  expand_depth : ℕ → Error → Error

pub data Outcome {ℓ} (A : Type ℓ) : Type ℓ where
  ok : A → Outcome A
  err : Error → Outcome A

pub Outcome-cases {ℓ} :
    {A : Type ℓ} (r : Outcome A) → ((e : Error) × (r ≡ err e)) ⊎ ((a : A) × (r ≡ ok a))
Outcome-cases (ok a) = inr (a, refl)
Outcome-cases (err e) = inl (e, refl)

-- The graph behind the search: code that this model takes as a parameter.
abbrev pub Expander : Type 0
Expander = List Text → Outcome (List Edge)

-- Source entries that exist at every instant.
pub sources_of : List Text → List Entry
sources_of [] = []
sources_of (u ∷ urns) = record { urn = u; valid = always } ∷ sources_of urns

-- A missing key of a Go map reads as the empty set.
abbrev pub set_at : Table Set → Text → Set
set_at reached u = elim (lookup u reached) [ none ↦ [] | some s ↦ s ]

abbrev pub edges_at : Table (List Edge) → Text → List Edge
edges_at edges u = elim (lookup u edges) [ none ↦ [] | some es ↦ es ]

-- The variables of the replay: what was reached, and the frontier under construction.
pub record Search : Type 0 where
  pub reached : Table Set
  pub next : List Entry

-- The end of both loop bodies: an empty span prunes, and so does a span already covered.
unfoldable pub admit : Search → Text → Interval → Search
admit s u span =
    let (set, added) = insert (set_at s.reached u) span in
    if empty span
    then s
    else if added
    then record {
      reached = put u set s.reached;
      next = s.next ++ record { urn = u; valid = span } ∷ [];
    }
    else s

-- The body of the loop over the sources.
unfoldable pub seed : (Text → Bool) → Interval → Search → Entry → Search
seed blocked within s source =
    if blocked source.urn then s else admit s source.urn (intersect source.valid within)

-- The body of the loop over the edges of one entry.
unfoldable pub follow : (Text → Bool) → Entry → Search → Edge → Search
follow blocked entry s e = if blocked e.to then s else admit s e.to (intersect entry.valid e.valid)

-- One entry of the frontier, and one wavefront.
unfoldable pub visit : (Text → Bool) → (Text → List Edge) → Search → Entry → Search
visit blocked edges s entry = foldl (follow blocked entry) s (edges entry.urn)

unfoldable pub level : (Text → Bool) → (Text → List Edge) → Table Set → List Entry → Search
level blocked edges reached frontier =
    foldl (visit blocked edges) (record { reached = reached; next = [] }) frontier

pub record Replay : Type 0 where
  pub reached : Table Set
  pub frontiers : List Frontier

-- A frontier is reported when it is not empty.
abbrev pub report : ℕ → List Entry → List Frontier
report depth [] = []
report depth (e ∷ entries) = record { depth = depth; entries = e ∷ entries } ∷ []

-- The loop over the depth, with the rounds that are left.
unfoldable pub levels : (Text → Bool) → (Text → List Edge) → ℕ → ℕ → Table Set → List Entry → Replay
levels blocked edges zero depth reached frontier = record { reached = reached; frontiers = [] }
levels blocked edges (suc rounds) depth reached [] = record { reached = reached; frontiers = [] }
levels blocked edges (suc rounds) depth reached (e ∷ frontier) =
    let s = level blocked edges reached (e ∷ frontier) in
    let rest = levels blocked edges rounds (suc depth) s.reached s.next in
    record { reached = rest.reached; frontiers = report depth s.next ++ rest.frontiers }

unfoldable pub replay : List Entry → Options → (Text → List Edge) → (Text → Bool) → Replay
replay sources opts edges blocked =
    let s = foldl (seed blocked opts.within) (record { reached = []; next = [] }) sources in
    let rest = levels blocked edges opts.max_depth 1 s.reached s.next in
    record { reached = rest.reached; frontiers = report 0 s.next ++ rest.frontiers }

-- A Go map from nodes to true.
abbrev pub has : List Text → Text → Bool
has [] u = false
has (v ∷ nodes) u = text_eq v u || has nodes u

-- The variables of the union pass that both of its loops touch.
pub record Union : Type 0 where
  pub nodes : List Text
  pub edges : Table (List Edge)
  pub next : List Text

-- A node seen for the first time joins the union and the next frontier.
abbrev pub discover : Union → Text → Union
discover s u =
    if has s.nodes u then s else record s { nodes = s.nodes ++ u ∷ []; next = s.next ++ u ∷ [] }

unfoldable pub start_union : Union → Entry → Union
start_union s source = discover s source.urn

unfoldable pub read_edge : Union → Edge → Union
read_edge s e =
    discover (record s { edges = put e.from (edges_at s.edges e.from ++ e ∷ []) s.edges }) e.to

-- What the pass leaves in the result.
pub record Pass : Type 0 where
  pub nodes : List Text
  pub edges : Table (List Edge)
  pub depth : ℕ
  pub truncated : Bool

-- `done` rounds are behind and `rounds` are left; the loop leaves when the frontier is empty.
unfoldable pub union_rounds : Expander → ℕ → ℕ → Union → Outcome Pass
union_rounds exp zero done s = ok (record {
  nodes = s.nodes;
  edges = s.edges;
  depth = done;
  truncated = elim s.next [ [] ↦ false | _ ∷ _ ↦ true ];
})
union_rounds exp (suc rounds) done s = elim s.next [
  | [] ↦ ok (record { nodes = s.nodes; edges = s.edges; depth = done; truncated = false })
  | u ∷ frontier ↦ elim (exp (u ∷ frontier)) [
    | err e ↦ err (expand_depth done e)
    | ok es ↦ union_rounds exp rounds (suc done) (foldl read_edge (record s { next = [] }) es)
  ]
]

unfoldable pub union_pass : Expander → List Entry → Options → Outcome Pass
union_pass exp sources opts =
    union_rounds exp opts.max_depth 0
      (foldl start_union (record { nodes = []; edges = []; next = [] }) sources)

-- `Kappa` is kept as its two counts, intervals and reached nodes: the program divides them as
-- floats.
pub record Result : Type 0 where
  pub coexistence : Table Set
  pub union : List Text
  pub depth : ℕ
  pub truncated : Bool
  pub edges : Table (List Edge)
  pub sources : List Entry
  pub opts : Options
  pub intervals : ℕ
  pub frontiers : List Frontier

abbrev pub default_max_depth : ℕ
default_max_depth = 12

-- The two defaults: the depth bound, and the whole of time for the zero interval.
unfoldable pub set_defaults : Options → Options
set_defaults opts = record {
  within = if opts.within.from == 0 && opts.within.to == 0 then always else opts.within;
  max_depth = if opts.max_depth == 0 then default_max_depth else opts.max_depth;
}

unfoldable pub count_intervals : Table Set → ℕ
count_intervals [] = 0
count_intervals ((u, s) ∷ reached) = length s + count_intervals reached

unfoldable pub reach : Expander → List Entry → Options → Outcome Result
reach exp sources options =
    let opts = set_defaults options in
    elim (union_pass exp sources opts) [
      | err e ↦ err e
      | ok pass ↦
          let found = replay sources opts (edges_at pass.edges) (λ _. false) in
          ok (record {
            coexistence = found.reached;
            union = pass.nodes;
            depth = pass.depth;
            truncated = pass.truncated;
            edges = pass.edges;
            sources = sources;
            opts = opts;
            intervals = count_intervals found.reached;
            frontiers = found.frontiers;
          })
    ]

-- The nodes of the union that no coexistence path reached.
unfoldable pub phantom_nodes : List Text → Table Set → ℕ
phantom_nodes [] coexistence = 0
phantom_nodes (u ∷ nodes) coexistence =
    (if length (set_at coexistence u) == 0 then 1 else 0) + phantom_nodes nodes coexistence

unfoldable pub phantom_reach : Result → ℕ
phantom_reach r = phantom_nodes r.union r.coexistence

unfoldable pub reached_in : Table Set → ℕ → List Text
reached_in [] t = []
reached_in ((u, s) ∷ reached) t =
    let rest = reached_in reached t in if holds_at s t then u ∷ rest else rest

unfoldable pub reached_at : Result → ℕ → List Text
reached_at r t = reached_in r.coexistence t
