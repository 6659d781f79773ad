-- ===== src/Query/Expander.antt =====
-- internal/query/expander.go: the reads of the search.
pub mod Serves
use keyholders.Base.{ℕ, List, [], ◌∷◌, ◌++◌, Text, bytes, format_uint}
use keyholders.Query.Reach.{Edge, Error, Outcome, Expander}
use keyholders.Query.Rows.{Props, Row, VersionAttrs, string_prop, version_attrs, interval_of}
use keyholders.Query.Urns.{npm_urn, quote_all}
use keyholders.Query.Batch.{
  Call, Database, Step, Reader, prepend, stopped, nothing, result_limit, read_chunks,
}

pub record GraphExpander : Type 0 where
  pub db : Database
  pub edge_type : Text
  pub direction : Text

-- The nodes of a path that have a URN.
abbrev pub seen_nodes : List Props → List VersionAttrs
seen_nodes [] = []
seen_nodes (props ∷ nodes) = elim (string_prop props (bytes "urn")) [
  | [] ↦ seen_nodes nodes
  | c ∷ urn ↦ version_attrs props ∷ seen_nodes nodes
]

abbrev pub edge_of : Props → Props → Props → Edge
edge_of from to rel = record {
  from = string_prop from (bytes "urn");
  to = string_prop to (bytes "urn");
  valid = interval_of rel;
}

-- The loop over the rows: no path is an error, and a path that is not one hop is passed over.
unfoldable pub read_rows : List Row → Step (List Edge)
read_rows [] = nothing
read_rows (Row.missing ∷ rows) = read_rows rows
read_rows (Row.not_path type ∷ rows) = stopped (Error.read (bytes "expected a path, got " ++ type))
read_rows (Row.path (from ∷ to ∷ []) (rel ∷ []) ∷ rows) =
    prepend (seen_nodes (from ∷ to ∷ [])) (edge_of from to rel ∷ []) (read_rows rows)
read_rows (Row.path nodes relationships ∷ rows) = read_rows rows

-- The error that wraps a failed query: `what` says of how many things it was.
abbrev pub counted_failure : Text → Text → ℕ → Text → Error
counted_failure before after n e =
    Error.read (before ++ (format_uint n ++ (after ++ (bytes ": " ++ e))))

abbrev pub call_for : Text → Text → List Text → Call
call_for edge_type direction valid = record {
  source_values = quote_all valid;
  edge_type = edge_type;
  direction = direction;
  result_limit = result_limit;
}

module _ (g : GraphExpander) where
  abbrev pub expansion : Reader Edge
  expansion = record {
    accepts = npm_urn;
    ask = λ valid. g.db (call_for g.edge_type g.direction valid);
    failure = counted_failure (bytes "expand ") (bytes " sources");
    trips = 1;
    read_rows = read_rows;
  }

  unfoldable pub out : List Text → Step (List Edge)
  out urns = read_chunks expansion urns

  -- The expander that the search reads through.
  abbrev pub expander : Expander
  expander urns = (out urns).result
