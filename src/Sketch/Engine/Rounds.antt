-- ===== src/Sketch/Engine/Rounds.antt =====
-- One round of internal/sketch/sketch.go over exact sets: what every set then holds.
use mathlib.Core.List.{foldl}
use keyholders.Base.{
  put-Unique, Unique, has_key, ◌≡◌, refl, ◌∙◌, inl, inr, Bool, ◌&&◌, ◌||◌, List, [], ◌∷◌, arith,
  Bool-cases, any, any-append, concat, map, Text, Table, text_eq, text_eq_iff, lookup, put,
}
use keyholders.Sketch.Exact.{ExactSet, exact_set, member, merge_members}
use keyholders.Sketch.Engine.{
  Edge, get, fresh, absorb, merge_chunk, merge_entry, merge_partial, round,
}
use keyholders.Sketch.Engine.Sets.{
  member-add_member, member-merge_members, Distinct, Distinct-add_member, Distinct-merge_members,
}
use keyholders.Sketch.Engine.Tables.{get-put, fresh-Unique, get-fresh}

-- The edge brings `u` to `v`: it ends there, and its source had `u` in the round before.
abbrev pub feeds : Table ExactSet → Text → Text → Edge → Bool
feeds cur v u e = text_eq e.to v && member (get exact_set cur e.from) u

-- Every set is without repetition.
abbrev pub Plain : Table ExactSet → Type 0
Plain m = (v : Text) → Distinct (get exact_set m v)

pub put-Plain :
    (k : Text) (s : ExactSet) (m : Table ExactSet) → Distinct s → Plain m → Plain (put k s m)
put-Plain k s m d p v = elim (Bool-cases (text_eq k v)) [
  | inl here ↦ rw (get-put exact_set k s m v, here) d
  | inr other ↦ rw (get-put exact_set k s m v, other) (p v)
]

absorb_lem :
    (cur local : Table ExactSet) (e : Edge) (v u : Text)
    → member (get exact_set (absorb exact_set cur local e) v) u
      ≡ (member (get exact_set local v) u || feeds cur v u e)
unfolding absorb
absorb_lem cur local e v u = elim (Bool-cases (text_eq e.to v)) [
  | inl here ↦
      let same = (text_eq_iff e.to v).0 here in
      rw
        (
          get-put exact_set e.to
              (merge_members (get exact_set local e.to) (get exact_set cur e.from)) local v,
          here,
          member-merge_members,
          same,
        )
        refl
  | inr other ↦
      rw
        (
          get-put exact_set e.to
              (merge_members (get exact_set local e.to) (get exact_set cur e.from)) local v,
          other,
        )
        (ground arith)
]

absorb-folded :
    (cur local : Table ExactSet) (chunk : List Edge) (v u : Text)
    → member (get exact_set (foldl (absorb exact_set cur) local chunk) v) u
      ≡ (member (get exact_set local v) u || any (feeds cur v u) chunk)
absorb-folded cur local [] v u = ground arith
absorb-folded cur local (e ∷ chunk) v u =
    ground (
      arith,
      absorb-folded cur (absorb exact_set cur local e) chunk v u,
      absorb_lem cur local e v u,
    )

absorb-Unique :
    (cur local : Table ExactSet) (chunk : List Edge)
    → Unique local
    → Unique (foldl (absorb exact_set cur) local chunk)
absorb-Unique cur local [] q = q
absorb-Unique cur local (e ∷ chunk) q = absorb-Unique cur (absorb exact_set cur local e) chunk (
    unfold absorb in
    put-Unique e.to (merge_members (get exact_set local e.to) (get exact_set cur e.from)) local q)

merge_entry_lem :
    (next : Table ExactSet) (n : Text) (s : ExactSet) (v u : Text)
    → member (get exact_set (merge_entry exact_set next (n, s)) v) u
      ≡ (member (get exact_set next v) u || (text_eq n v && member s u))
unfolding merge_entry
merge_entry_lem next n s v u = elim (Bool-cases (text_eq n v)) [
  | inl here ↦
      rw
        (
          get-put exact_set n (merge_members (get exact_set next n) s) next v,
          here,
          member-merge_members,
          (text_eq_iff n v).0 here,
        )
        refl
  | inr other ↦
      rw (get-put exact_set n (merge_members (get exact_set next n) s) next v, other) (ground arith)
]

-- A partial result adds its sets to those of the next round.
merge_partial_lem :
    (next part : Table ExactSet) (v u : Text)
    → Unique part
    → member (get exact_set (merge_partial exact_set next part) v) u
      ≡ (member (get exact_set next v) u || member (get exact_set part v) u)
unfolding merge_partial lookup
merge_partial_lem next [] v u q = ground arith
merge_partial_lem next ((n, s) ∷ part) v u q =
    merge_partial_lem (merge_entry exact_set next (n, s)) part v u q.1
    ∙ ground (arith, merge_entry_lem next n s v u, text_eq_iff n v, q.0)

partials-folded :
    (cur next : Table ExactSet) (parts : List (List Edge)) (v u : Text)
    → member
        (get exact_set
          (foldl (merge_partial exact_set) next (map (merge_chunk exact_set cur) parts))
          v)
        u
      ≡ (member (get exact_set next v) u || any (feeds cur v u) (concat parts))
unfolding merge_chunk lookup
partials-folded cur next [] v u = ground arith
partials-folded cur next (chunk ∷ parts) v u =
    let local = foldl (absorb exact_set cur) [] chunk in
    partials-folded cur (merge_partial exact_set next local) parts v u
    ∙ ground (
      arith,
      merge_partial_lem next local v u (absorb-Unique cur [] chunk tt),
      absorb-folded cur [] chunk v u,
      any-append (feeds cur v u) chunk (concat parts),
    )

-- A set holds its node and what the edges bring, and nothing from a round before.
pub member-round :
    (parts : List (List Edge)) (cur : Table ExactSet) (v u : Text)
    → member (get exact_set (round exact_set parts cur) v) u
      ≡ ((has_key cur v && text_eq v u) || any (feeds cur v u) (concat parts))
unfolding round
member-round parts cur v u = elim (Bool-cases (has_key cur v)) [
  | inl here ↦
      partials-folded cur (fresh exact_set cur) parts v u
      ∙ rw (get-fresh exact_set cur v, here, member-add_member [] v u) (ground arith)
  | inr none_here ↦
      partials-folded cur (fresh exact_set cur) parts v u
      ∙ rw (get-fresh exact_set cur v, none_here) refl
]

-- Facts that every step of a round keeps hold of its result.
module _ (P : Table ExactSet → Type 0)
    (puts : (k : Text) (s : ExactSet) (m : Table ExactSet)
      → P m
      → P (put k (merge_members (get exact_set m k) s) m)) where
  merge_partial-keeps :
      (next part : Table ExactSet) → P next → P (merge_partial exact_set next part)
  unfolding merge_partial merge_entry
  merge_partial-keeps next [] p = p
  merge_partial-keeps next ((n, s) ∷ part) p =
      merge_partial-keeps (merge_entry exact_set next (n, s)) part (puts n s next p)

  partials-keep :
      (next : Table ExactSet) (parts : List (Table ExactSet))
      → P next
      → P (foldl (merge_partial exact_set) next parts)
  partials-keep next [] p = p
  partials-keep next (part ∷ parts) p =
      partials-keep (merge_partial exact_set next part) parts (merge_partial-keeps next part p)

fresh-Plain : (cur : Table ExactSet) → Plain (fresh exact_set cur)
fresh-Plain cur v = elim (Bool-cases (has_key cur v)) [
  | inl here ↦ rw (get-fresh exact_set cur v, here) (Distinct-add_member [] v tt)
  | inr out ↦ rw (get-fresh exact_set cur v, out) tt
]

pub round-Plain :
    (parts : List (List Edge)) (cur : Table ExactSet) → Plain (round exact_set parts cur)
unfolding round
round-Plain parts cur =
    partials-keep Plain
      (λ k s m p.
        put-Plain k (merge_members (get exact_set m k) s) m
          (Distinct-merge_members (get exact_set m k) s (p k)) p)
      (fresh exact_set cur) (map (merge_chunk exact_set cur) parts) (fresh-Plain cur)

pub round-Unique :
    (parts : List (List Edge)) (cur : Table ExactSet)
    → Unique cur
    → Unique (round exact_set parts cur)
unfolding round
round-Unique parts cur q =
    partials-keep Unique (λ k s m p. put-Unique k (merge_members (get exact_set m k) s) m p)
      (fresh exact_set cur) (map (merge_chunk exact_set cur) parts) (fresh-Unique exact_set cur q)
