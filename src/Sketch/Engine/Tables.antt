-- ===== src/Sketch/Engine/Tables.antt =====
-- The maps of internal/sketch/sketch.go: what a round reads and writes in them.
use mathlib.Core.List.{foldl}
use keyholders.Base.{
  has_key-put, Unique, has_key-put, Unique, has_key, ◌≡◌, refl, ◌∙◌, inl, inr, Bool, true, false,
  ◌||◌, ◌==◌, if◌then◌else◌, List, [], ◌∷◌, ◌++◌, arith, Bool-cases, any, Text, Table, text_eq,
  text_eq_iff, text_eq_refl, lookup, put, lookup-put,
}
use keyholders.Sketch.Exact.{Sketch}
use keyholders.Sketch.Engine.{Edge, get, fresh, changed, seed, seeds, endpoints}

abbrev pub names : List Text → Text → Bool
names ns v = any (λ n. text_eq n v) ns

module _ {S : Type 0} (sk : Sketch S) where
  pub get-put :
      (k : Text) (s : S) (m : Table S) (v : Text)
      → get sk (put k s m) v ≡ (if text_eq k v then s else get sk m v)
  get-put k s m v = ground (arith, lookup-put k v s m)

  pub has_key-fresh : (m : Table S) (v : Text) → has_key (fresh sk m) v ≡ has_key m v
  unfolding lookup
  has_key-fresh [] v = refl
  has_key-fresh ((k, s) ∷ m) v = ground (arith, has_key-fresh m v)

  pub fresh-Unique : (m : Table S) → Unique m → Unique (fresh sk m)
  fresh-Unique [] u = tt
  fresh-Unique ((k, s) ∷ m) u = (has_key-fresh m k ∙ u.0, fresh-Unique m u.1)

  pub get-fresh :
      (m : Table S) (v : Text)
      → get sk (fresh sk m) v ≡ (if has_key m v then sk.add sk.new v else sk.new)
  unfolding lookup
  get-fresh [] v = refl
  get-fresh ((k, s) ∷ m) v = ground (arith, text_eq_iff k v, get-fresh m v)

  -- Without a change every sketch counts as before.
  pub unchanged :
      (cur next : Table S) (v : Text)
      → Unique next
      → changed sk cur next ≡ false
      → has_key next v ≡ true
      → sk.count (get sk next v) ≡ sk.count (get sk cur v)
  unfolding changed lookup
  unchanged cur [] v u h k = cc
  unchanged cur ((n, s) ∷ next) v u h k = ground (arith, text_eq_iff n v, unchanged cur next v u.1)

  -- A change shows at some key.
  pub changed_at :
      (cur next : Table S)
      → Unique next
      → changed sk cur next ≡ true
      → (v : Text) × (has_key next v ≡ true)
        × ((sk.count (get sk next v) == sk.count (get sk cur v)) ≡ false)
  unfolding changed lookup
  changed_at cur [] u h = cc
  changed_at cur ((n, s) ∷ next) u h = elim (Bool-cases (sk.count s == sk.count (get sk cur n))) [
    | inr here ↦ (n, ground (arith, text_eq_refl n), ground (arith, text_eq_refl n))
    | inl same ↦
        let (v, k, e) = changed_at cur next u.1 (ground arith) in
        (v, ground (arith, text_eq_iff n v), ground (arith, text_eq_iff n v, u.0))
  ]

  seed_lem :
      (cur : Table S) (n v : Text) → (has_key (seed sk cur n) v ≡ (text_eq n v || has_key cur v))
  unfolding seed
  seed_lem cur n v = ground (arith, has_key-put n (sk.add sk.new n) cur v, text_eq_iff n v)

  pub seed_folded :
      (ns : List Text) (cur : Table S) (v : Text)
      → has_key (foldl (seed sk) cur ns) v ≡ (has_key cur v || names ns v)
  seed_folded [] cur v = ground arith
  seed_folded (n ∷ ns) cur v = ground (arith, seed_folded ns (seed sk cur n) v, seed_lem cur n v)

  -- The nodes and the endpoints are the keys.
  pub has_key-seeds :
      (nodes : List Text) (edges : List Edge) (v : Text)
      → has_key (seeds sk nodes edges) v ≡ names (nodes ++ endpoints edges) v
  unfolding seeds lookup
  has_key-seeds nodes edges v = seed_folded (nodes ++ endpoints edges) [] v
