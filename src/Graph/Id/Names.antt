-- ===== src/Graph/Id/Names.antt =====
-- The names of internal/graph/id.go determine what they name.
use keyholders.Base.{ℕ, ◌≡◌, sym, ap, ◌∙◌, ◌∷◌, ◌++◌, Option, some, Text, cut}
use keyholders.Base.Cutting.{Lacks, cut-append}
use keyholders.Graph.Id.{edge_key}

cut_same :
    (c : ℕ) (s u s' u' : Text)
    → Lacks c s
    → Lacks c s'
    → s ++ c ∷ u ≡ s' ++ c ∷ u'
    → (s ≡ s') × (u ≡ u')
cut_same c s u s' u' p q h =
    let e : cut c (s ++ c ∷ u) ≡ cut c (s' ++ c ∷ u') = ap (cut c) h in
    let both : ◌≡◌ {A = Text × Option Text} (s, some u) (s', some u') =
      sym (cut-append c s u p) ∙ (e ∙ cut-append c s' u' q) in
    (ap (λ x. x.0) both, cc)

-- What is hashed to the id of an edge determines its source, type, target and discriminator, where
-- none of the first three has a bar.
pub edge_key-injective :
    (src type dst disc src' type' dst' disc' : Text)
    → Lacks b'|' src
    → Lacks b'|' type
    → Lacks b'|' dst
    → Lacks b'|' src'
    → Lacks b'|' type'
    → Lacks b'|' dst'
    → edge_key src type dst disc ≡ edge_key src' type' dst' disc'
    → (src ≡ src') × (type ≡ type') × (dst ≡ dst') × (disc ≡ disc')
edge_key-injective src type dst disc src' type' dst' disc' p q r p' q' r' h =
    let (a, rest) = cut_same b'|' src _ src' _ p p' h in
    let (b, rest') = cut_same b'|' type _ type' _ q q' rest in
    let (c, d) = cut_same b'|' dst disc dst' disc' r r' rest' in (a, b, c, d)
