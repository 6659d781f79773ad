-- ===== src/Query/Expander/Serves.antt =====
-- The expander of internal/query/expander.go is one that internal/query/reach.go can walk with.
use keyholders.Base.{◌≡◌, refl, subst, arith, List, [], ◌∷◌, Text}
use keyholders.Query.Reach.{Edge, ok}
use keyholders.Query.Reach.Rounds.{Serves}
use keyholders.Query.Rows.{Props, Row}
use keyholders.Query.Urns.{npm_urn}
use keyholders.Query.Batch.Parts.{Exact, Reads, Procedure, accepted, prepend-ok, skipped, hopped}
use keyholders.Query.Batch.Exact.{read_chunks-Exact}
use keyholders.Query.Expander.{
  GraphExpander, edge_of, seen_nodes, read_rows, expansion, out, expander,
}

-- The row is one hop, and the edge is its edge.
abbrev pub Hop : Row → Edge → Type 0
Hop r e =
    (from : Props) × (to : Props) × (rel : Props) × (r ≡ Row.path (from ∷ to ∷ []) (rel ∷ []))
    × (e ≡ edge_of from to rel)

abbrev pub source_of : Edge → Text
source_of e = e.from

read_rows-Reads :
    (rows : List Row) (es : List Edge) → (read_rows rows).result ≡ ok es → Reads Hop rows es
unfolding read_rows
read_rows-Reads [] es h =
    let e : [] ≡ es = ground (arith, h) in
    subst (Reads Hop []) e (λ r e m k. elim m [ ], λ e m. elim m [ ])
read_rows-Reads (Row.missing ∷ rows) es h =
    skipped Hop Row.missing rows es (λ e (f, t, r, p, q). cc) (read_rows-Reads rows es h)
read_rows-Reads (Row.not_path type ∷ rows) es h = absurd (cc)
read_rows-Reads (Row.path (from ∷ to ∷ []) (rel ∷ []) ∷ rows) es h =
    let row = Row.path (from ∷ to ∷ []) (rel ∷ []) in
    let (fs, q, e) =
      prepend-ok (seen_nodes (from ∷ to ∷ [])) (edge_of from to rel ∷ []) (read_rows rows) es h in
    subst (Reads Hop (row ∷ rows)) e (
      hopped Hop row (edge_of from to rel) rows fs (from, to, rel, refl, refl)
        (λ e (f, t, r, p, q). cc) (read_rows-Reads rows fs q))
read_rows-Reads (Row.path [] rels ∷ rows) es h =
    skipped Hop (Row.path [] rels) rows es (λ e (f, t, r, p, q). cc) (read_rows-Reads rows es h)
read_rows-Reads (Row.path (a ∷ []) rels ∷ rows) es h =
    skipped Hop (Row.path (a ∷ []) rels) rows es (λ e (f, t, r, p, q). cc)
      (read_rows-Reads rows es h)
read_rows-Reads (Row.path (a ∷ b ∷ c ∷ nodes) rels ∷ rows) es h =
    skipped Hop (Row.path (a ∷ b ∷ c ∷ nodes) rels) rows es (λ e (f, t, r, p, q). cc)
      (read_rows-Reads rows es h)
read_rows-Reads (Row.path (a ∷ b ∷ []) [] ∷ rows) es h =
    skipped Hop (Row.path (a ∷ b ∷ []) []) rows es (λ e (f, t, r, p, q). cc)
      (read_rows-Reads rows es h)
read_rows-Reads (Row.path (a ∷ b ∷ []) (c ∷ d ∷ rels) ∷ rows) es h =
    skipped Hop (Row.path (a ∷ b ∷ []) (c ∷ d ∷ rels)) rows es (λ e (f, t, r, p, q). cc)
      (read_rows-Reads rows es h)

-- Over a database that behaves as the procedure does, with no single name at the limit, the
-- expander serves the search with the graph's edges out of the names that the pattern accepts:
-- split results are put together without a loss.
pub expander-Serves :
    (g : GraphExpander) (graph : Text → List Edge)
    → Procedure source_of Hop (expansion g) graph
    → Serves (expander g) (accepted npm_urn graph)
unfolding out
expander-Serves g graph p = record {
  complete = λ urns es u e h m k. (exact urns es h).complete u e m k;
  sound = λ urns es e h m. (exact urns es h).sound e m;
}
  where
    exact :
        (urns : List Text) (es : List Edge)
        → (expander g urns) ≡ ok es
        → Exact source_of (accepted npm_urn graph) urns es
    exact urns es h =
        read_chunks-Exact source_of Hop (expansion g) graph p read_rows-Reads urns es h
