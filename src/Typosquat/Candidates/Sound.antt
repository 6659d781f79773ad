-- ===== src/Typosquat/Candidates/Sound.antt =====
-- What internal/typosquat/candidates.go flags.
use mathlib.Core.List.{foldl}
use keyholders.Base.{
  ℕ, ◌≤◌, ◌≡◌, ◌≢◌, refl, sym, ap, ◌∙◌, subst, true, false, ltb, List, [], ◌∷◌, arith, Text, Table,
  text_eq, text_eq_refl, map, sort_by, Bool-cases, inl, inr, In, In-append, In-singleton,
  In-map_inv, In-sort_by, In-take, take,
}
use keyholders.Typosquat.Distance.{edit_distance}
use keyholders.Typosquat.Distance.Edits.{Edits-flip}
use keyholders.Typosquat.Distance.Least.{edit_distance-IsLeast}
use keyholders.Typosquat.Normalize.{normalize}
use keyholders.Typosquat.Candidates.{
  Candidate, Entry, Search, entry, sorts_before, rank_of, orient, consider, window, scan, find,
  has_pair, pair_key,
}

pub edit_distance_comm : (a b : Text) → edit_distance a b ≡ edit_distance b a
edit_distance_comm a b =
    let k = edit_distance-IsLeast a b in
    let l = edit_distance-IsLeast b a in
    omega (arith, k.least _ (Edits-flip l.attained), l.least _ (Edits-flip k.attained))

-- A pair worth flagging: two different names of the list whose normalized forms are close, the one
-- with the better rank first.
pub record IsMatch (names : List Text) (ranks : Table ℕ) (max_distance : ℕ) (c : Candidate)
    : Type 0 where
  pub popular_listed : In c.popular names
  pub lookalike_listed : In c.lookalike names
  pub distinct : c.popular ≢ c.lookalike
  pub distance : c.distance ≡ edit_distance (normalize c.popular) (normalize c.lookalike)
  pub close : c.distance ≤ max_distance
  pub popular_rank : c.popular_rank ≡ rank_of ranks c.popular
  pub lookalike_rank : c.lookalike_rank ≡ rank_of ranks c.lookalike
  pub ranked : c.popular_rank ≤ c.lookalike_rank

module _ (names : List Text) (ranks : Table ℕ) (max_distance : ℕ) where
  abbrev Good : Search → Type 0
  Good s = (c : Candidate) → In c s.out → IsMatch names ranks max_distance c

  abbrev Listed : Entry → Type 0
  Listed e = In e.name names × (e.normalized ≡ normalize e.name)

  orient-IsMatch :
      (a b : Entry)
      → Listed a
      → Listed b
      → a.name ≢ b.name
      → edit_distance a.normalized b.normalized ≤ max_distance
      → IsMatch names ranks max_distance
          (orient a.name b.name (edit_distance a.normalized b.normalized) ranks)
  unfolding orient
  orient-IsMatch a b l k other near =
      let d = edit_distance a.normalized b.normalized in
      let folded : d ≡ edit_distance (normalize a.name) (normalize b.name) =
        ap (λ x. edit_distance x b.normalized) l.1 ∙ ap (edit_distance (normalize a.name)) k.1 in
      elim (Bool-cases (ltb (rank_of ranks b.name) (rank_of ranks a.name))) [
        | inl swap ↦ rw swap (record {
          popular_listed = k.0;
          lookalike_listed = l.0;
          distinct = λ e. other (sym e);
          distance = folded ∙ edit_distance_comm (normalize a.name) (normalize b.name);
          close = near;
          popular_rank = refl;
          lookalike_rank = refl;
          ranked = ground arith;
        })
        | inr stay ↦ rw stay (record {
          popular_listed = l.0;
          lookalike_listed = k.0;
          distinct = other;
          distance = folded;
          close = near;
          popular_rank = refl;
          lookalike_rank = refl;
          ranked = ground arith;
        })
      ]

  differ : (a b : Text) → text_eq a b ≡ false → a ≢ b
  differ a b other e =
      let same : text_eq a b ≡ true = subst (λ c. text_eq a c ≡ true) e (text_eq_refl a) in
      ground arith

  consider-Good :
      (a : Entry) (s : Search) (b : Entry)
      → Listed a
      → Listed b
      → Good s
      → Good (consider ranks max_distance a s b)
  unfolding consider
  consider-Good a s b l k good = elim (Bool-cases (text_eq a.name b.name)) [
    | inl same ↦ rw same good
    | inr other ↦ elim (Bool-cases (ltb max_distance (edit_distance a.normalized b.normalized))) [
      | inl far ↦ rw (other, far) good
      | inr near ↦ elim (Bool-cases (has_pair s.seen (pair_key a.name b.name))) [
        | inl again ↦ rw (other, near, again) good
        | inr fresh ↦
            rw (other, near, fresh)
              (λ c m. elim (In-append s.out _ m) [
                | inl before ↦ good c before
                | inr now ↦
                    subst (IsMatch names ranks max_distance) (sym (In-singleton now))
                      (orient-IsMatch a b l k (differ a.name b.name other) (ground arith))
              ])
      ]
    ]
  ]

  foldl-Good :
      (a : Entry) (s : Search) (entries : List Entry)
      → Listed a
      → ((e : Entry) → In e entries → Listed e)
      → Good s
      → Good (foldl (consider ranks max_distance a) s entries)
  foldl-Good a s [] l k good = good
  foldl-Good a s (b ∷ entries) l k good =
      foldl-Good a (consider ranks max_distance a s b) entries l (λ e m. k e (In.tail m))
        (consider-Good a s b l (k b In.head) good)

  scan-Good :
      (entries : List Entry) (s : Search)
      → ((e : Entry) → In e entries → Listed e)
      → Good s
      → Good (scan ranks max_distance entries s)
  unfolding scan
  scan-Good [] s k good = good
  scan-Good (a ∷ entries) s k good =
      scan-Good entries (foldl (consider ranks max_distance a) s (take window entries))
        (λ e m. k e (In.tail m))
        (foldl-Good a s (take window entries) (k a In.head)
          (λ e m. k e (In.tail (In-take window entries e m))) good)

  listed : (e : Entry) → In e (map entry names) → Listed e
  listed e m =
      let (n, h, same) = In-map_inv entry names m in
      (
        subst (λ x. In x.name names) (sym same) h,
        subst (λ x. x.normalized ≡ normalize x.name) (sym same) refl,
      )

  -- Every pair that `Find` flags is of two different names of the list, the one with the better
  -- rank or an equal one first, and its distance is the edit distance of their normalized forms and
  -- within the bound.
  pub find-IsMatch :
      (c : Candidate) → In c (find names ranks max_distance) → IsMatch names ranks max_distance c
  unfolding find
  find-IsMatch c m =
      scan-Good (sort_by sorts_before (map entry names)) (record { seen = []; out = [] })
        (λ e k. listed e ((In-sort_by sorts_before (map entry names)).0 k)) (λ d k. elim k [ ]) c m
