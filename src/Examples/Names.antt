-- ===== src/Examples/Names.antt =====
-- internal/graph/id.go on one version.
use keyholders.Base.{◌≡◌, refl, []}
use keyholders.Graph.Id.{id}

id-empty : id [] ≡ 5472609002491880229
unfolding id
id-empty = refl
