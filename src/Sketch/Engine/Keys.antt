-- ===== src/Sketch/Engine/Keys.antt =====
-- The keys of the maps of internal/sketch/sketch.go: a round keeps them.
use mathlib.Core.List.{foldl}
use keyholders.Base.{
  has_key-put, has_key, ◌≡◌, ◌∙◌, Bool, true, ◌||◌, List, [], ◌∷◌, arith, any, any-append, concat,
  map, Text, Table, lookup, put, text_eq,
}
use keyholders.Sketch.Exact.{Sketch}
use keyholders.Sketch.Engine.{
  Edge, get, fresh, absorb, merge_chunk, merge_entry, merge_partial, round,
}
use keyholders.Sketch.Engine.Tables.{has_key-fresh}

abbrev pub targets : List Edge → Text → Bool
targets edges v = any (λ e. text_eq e.to v) edges

module _ {S : Type 0} (sk : Sketch S) where
  absorb-keys :
      (cur local : Table S) (chunk : List Edge) (v : Text)
      → has_key (foldl (absorb sk cur) local chunk) v ≡ (has_key local v || targets chunk v)
  unfolding absorb
  absorb-keys cur local [] v = ground arith
  absorb-keys cur local (e ∷ chunk) v =
      let s = sk.merge (get sk local e.to) (get sk cur e.from) in
      ground (arith, absorb-keys cur (put e.to s local) chunk v, has_key-put e.to s local v)

  merge_partial-keys :
      (next part : Table S) (v : Text)
      → has_key (merge_partial sk next part) v ≡ (has_key next v || has_key part v)
  unfolding merge_partial merge_entry lookup
  merge_partial-keys next [] v = ground arith
  merge_partial-keys next ((n, s) ∷ part) v =
      let w = sk.merge (get sk next n) s in
      ground (arith, merge_partial-keys (put n w next) part v, has_key-put n w next v)

  partials-keys :
      (cur next : Table S) (parts : List (List Edge)) (v : Text)
      → has_key (foldl (merge_partial sk) next (map (merge_chunk sk cur) parts)) v
        ≡ (has_key next v || targets (concat parts) v)
  unfolding merge_chunk lookup
  partials-keys cur next [] v = ground arith
  partials-keys cur next (chunk ∷ parts) v =
      let local = foldl (absorb sk cur) [] chunk in
      partials-keys cur (merge_partial sk next local) parts v
      ∙ ground (
        arith,
        merge_partial-keys next local v,
        absorb-keys cur [] chunk v,
        any-append (λ (e : Edge). text_eq e.to v) chunk (concat parts),
      )

  -- The keys stay as they are where every target is one of them.
  pub has_key-round :
      (parts : List (List Edge)) (cur : Table S) (v : Text)
      → (targets (concat parts) v ≡ true → has_key cur v ≡ true)
      → has_key (round sk parts cur) v ≡ has_key cur v
  unfolding round
  has_key-round parts cur v h =
      partials-keys cur (fresh sk cur) parts v ∙ ground (arith, has_key-fresh sk cur v, h)
