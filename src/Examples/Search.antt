-- ===== src/Examples/Search.antt =====
-- internal/query/reach.go over a graph of three nodes: `a` resolves to `b` in the span 10 to 20, and
-- `b` to `c` from 15 to 30, so `c` is reached from 15 to 20 only.
use keyholders.Base.{
  ℕ, ◌≤◌, ◌≡◌, ◌↔◌, refl, subst, sym, ap, inl, inr, true, false, if◌then◌else◌, List, [], ◌∷◌, ◌++◌,
  arith, Bool-cases, In, In-append, In-append_left, In-append_right, In-singleton, lookup, put,
  Text, bytes, text_eq,
}
use keyholders.Query.Interval.{always, holds_at, insert, covers, covers_from, coalesce}
use keyholders.Query.Reach.{
  Edge, Entry, Options, ok, Expander, Result, has, set_at, replay, reach, set_defaults, levels,
  level, visit, follow, seed, admit,
}
use keyholders.Query.Reach.Walk.{Walk, UnionWalk}
use keyholders.Query.Reach.Rounds.{Serves}
use keyholders.Query.Reach.Answer.{
  Answers, reach_returns, reach_exact, reach_union, coexistence-union,
}

abbrev pub a : Text
a = bytes "pkg:npm/a@1.0.0"

abbrev pub b : Text
b = bytes "pkg:npm/b@1.0.0"

abbrev pub c : Text
c = bytes "pkg:npm/c@1.0.0"

abbrev edge : Text → Text → ℕ → ℕ → Edge
edge u v from to = record { from = u; to = v; valid = record { from = from; to = to } }

abbrev pub out : Text → List Edge
out u = if text_eq u a then edge u b 10 20 ∷ [] else if text_eq u b then edge u c 15 30 ∷ [] else []

-- A graph that answers from `out`.
unfoldable pub gather : List Text → List Edge
gather [] = []
gather (u ∷ urns) = out u ++ gather urns

unfoldable pub exp : Expander
exp urns = ok (gather urns)

exp-Answers : Answers exp
unfolding exp
exp-Answers urns = (gather urns, refl)

out-a : (u : Text) → text_eq u a ≡ true → out u ≡ edge u b 10 20 ∷ []
out-a u h = rw h refl

out-b : (u : Text) → text_eq u a ≡ false → text_eq u b ≡ true → out u ≡ edge u c 15 30 ∷ []
out-b u h k = rw (h, k) refl

out-else : (u : Text) → text_eq u a ≡ false → text_eq u b ≡ false → out u ≡ []
out-else u h k = rw (h, k) refl

out-from : (u : Text) (e : Edge) → In e (out u) → e.from ≡ u
out-from u e m = elim (Bool-cases (text_eq u a)) [
  | inl at_a ↦ ap (λ x. x.from) (In-singleton (subst (In e) (out-a u at_a) m))
  | inr other ↦ elim (Bool-cases (text_eq u b)) [
    | inl at_b ↦ ap (λ x. x.from) (In-singleton (subst (In e) (out-b u other at_b) m))
    | inr none_left ↦ elim (subst (In e) (out-else u other none_left) m) [ ]
  ]
]

In-gather : (urns : List Text) (u : Text) (e : Edge) → In u urns → In e (out u) → In e (gather urns)
unfolding gather
In-gather [] u e m k = elim m [ ]
In-gather (u ∷ urns) v e In.head k = In-append_left (gather urns) k
In-gather (u ∷ urns) v e (In.tail m) k = In-append_right (out u) (In-gather urns v e m k)

gather-In :
    (urns : List Text) (e : Edge) → In e (gather urns) → (u : Text) × In u urns × In e (out u)
unfolding gather
gather-In [] e m = elim m [ ]
gather-In (u ∷ urns) e m = elim (In-append (out u) (gather urns) m) [
  | inl here ↦ (u, In.head, here)
  | inr later ↦ let (v, k, n) = gather-In urns e later in (v, In.tail k, n)
]

ok-injective : {es ds : List Edge} → ok es ≡ ok ds → es ≡ ds
ok-injective h = cc

pub exp-Serves : Serves exp out
unfolding exp
exp-Serves = record {
  complete = λ urns es u e answer m k.
      (subst (In e) (ok-injective answer) (In-gather urns u e m k), out-from u e k);
  sound = λ urns es e answer m.
      let (u, k, n) = gather-In urns e (subst (In e) (sym (ok-injective answer)) m) in
      let same = sym (out-from u e n) in
      (subst (λ x. In x urns) same k, subst (λ x. In e (out x)) same n);
}

abbrev pub from_a : List Entry
from_a = record { urn = a; valid = always } ∷ []

abbrev pub ever : Options
ever = record { within = always; max_depth = 0 }

abbrev found : Result
found = (reach_returns exp from_a ever exp-Answers).0

found-ok : reach exp from_a ever ≡ ok found
found-ok = (reach_returns exp from_a ever exp-Answers).1

-- `c` is reached where both edges hold, and not at the instant where only the second does.
replay-run :
    (holds_at
        (set_at
          (replay from_a (record { within = always; max_depth = 12 }) out (λ _. false)).reached
          c)
        17
      ≡ true)
    × (holds_at
          (set_at
            (replay from_a (record { within = always; max_depth = 12 }) out (λ _. false)).reached
            c)
          25
        ≡ false)
unfolding replay levels level visit follow seed admit insert covers covers_from coalesce lookup put
    text_eq
replay-run = (refl, refl)

reach_exact_example : (holds_at (set_at found.coexistence c) 17 ≡ true) ↔ (
    (n : ℕ) × (n ≤ (set_defaults ever).max_depth)
    × Walk from_a (set_defaults ever).within (λ _. false) out 17 n c)
reach_exact_example = reach_exact exp out from_a ever found c 17 exp-Serves found-ok

reach_union_example :
    ((has found.union c ≡ true)
      ↔ ((n : ℕ) × (n ≤ (set_defaults ever).max_depth) × UnionWalk from_a out n c))
    × (found.truncated ≡ false → (n : ℕ) → UnionWalk from_a out n c → has found.union c ≡ true)
reach_union_example = reach_union exp out from_a ever found c exp-Serves found-ok

reached_c : holds_at (set_at found.coexistence c) 17 ≡ true
unfolding set_defaults
reached_c = reach_exact_example.1 (2, omega arith, to_c)
  where
    to_c : Walk from_a (set_defaults ever).within (λ _. false) out 17 2 c
    to_c =
        unfold text_eq set_defaults in
        Walk.step
          (Walk.step (Walk.start (record { urn = a; valid = always }) In.head refl refl refl refl)
            (edge a b 10 20) In.head refl refl refl)
          (edge b c 15 30) In.head refl refl refl

coexistence-union_example : has found.union c ≡ true
coexistence-union_example =
    coexistence-union exp out from_a ever found c 17 exp-Serves found-ok reached_c
