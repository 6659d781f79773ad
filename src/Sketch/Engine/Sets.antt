-- ===== src/Sketch/Engine/Sets.antt =====
-- The exact sets of internal/sketch/exact.go: members, and counts without repetition.
use keyholders.Base.{
  suc, ◌≤◌, ◌<◌, ◌≡◌, refl, inl, inr, true, false, ◌||◌, if◌then◌else◌, [], ◌∷◌, ◌++◌, arith,
  Bool-cases, length, Text, text_eq, text_eq_iff, text_eq_refl,
}
use keyholders.Sketch.Exact.{ExactSet, member, add_member, merge_members}

member-append : (s t : ExactSet) (u : Text) → member (s ++ t) u ≡ (member s u || member t u)
member-append [] t u = refl
member-append (m ∷ s) t u = ground (arith, member-append s t u)

pub member-add_member :
    (s : ExactSet) (n u : Text) → member (add_member s n) u ≡ (text_eq n u || member s u)
unfolding add_member
member-add_member s n u = ground (arith, text_eq_iff n u, member-append s (n ∷ []) u)

pub member-merge_members :
    (s t : ExactSet) (u : Text) → member (merge_members s t) u ≡ (member s u || member t u)
unfolding merge_members
member-merge_members s [] u = ground arith
member-merge_members s (n ∷ t) u =
    ground (arith, member-merge_members (add_member s n) t u, member-add_member s n u)

-- No member stands twice.
abbrev pub Distinct : ExactSet → Type 0
Distinct [] = Unit
Distinct (m ∷ s) = (member s m ≡ false) × Distinct s

Distinct-append :
    (s : ExactSet) (n : Text) → member s n ≡ false → Distinct s → Distinct (s ++ n ∷ [])
Distinct-append [] n h d = (refl, tt)
Distinct-append (m ∷ s) n h d = (
  ground (arith, member-append s (n ∷ []) m, text_eq_iff n m, text_eq_iff m n),
  Distinct-append s n (ground arith) d.1,
)

pub Distinct-add_member : (s : ExactSet) (n : Text) → Distinct s → Distinct (add_member s n)
unfolding add_member
Distinct-add_member s n d = elim (Bool-cases (member s n)) [
  | inl old ↦ rw old d
  | inr new ↦ rw new (Distinct-append s n new d)
]

pub Distinct-merge_members : (s t : ExactSet) → Distinct s → Distinct (merge_members s t)
unfolding merge_members
Distinct-merge_members s [] d = d
Distinct-merge_members s (n ∷ t) d =
    Distinct-merge_members (add_member s n) t (Distinct-add_member s n d)

-- The set without one of its members.
remove : Text → ExactSet → ExactSet
remove n [] = []
remove n (m ∷ s) = let rest = remove n s in if text_eq m n then s else m ∷ rest

length-remove : (n : Text) (s : ExactSet) → member s n ≡ true → suc (length (remove n s)) ≡ length s
unfolding remove
length-remove n [] h = cc
length-remove n (m ∷ s) h = ground (arith, length-remove n s)

member-remove :
    (n : Text) (s : ExactSet) (u : Text)
    → member s u ≡ true
    → text_eq n u ≡ false
    → member (remove n s) u ≡ true
unfolding remove
member-remove n [] u h k = h
member-remove n (m ∷ s) u h k =
    ground (arith, member-remove n s u, text_eq_iff m n, text_eq_iff m u, text_eq_iff n u)

-- A set has no more members than one that it is part of, and fewer if it misses one.
pub length-le :
    (s t : ExactSet)
    → Distinct s
    → ((u : Text) → member s u ≡ true → member t u ≡ true)
    → length s ≤ length t
length-le [] t d h = omega arith
length-le (n ∷ s) t d h =
    let here = h n (ground (arith, text_eq_refl n)) in
    let rest =
      length-le s (remove n t) d.1
        (λ u k. member-remove n t u (h u (ground arith)) (differs u k)) in
    omega (arith, length-remove n t here, rest)
  where
    differs : (u : Text) → member s u ≡ true → text_eq n u ≡ false
    differs u k = ground (arith, text_eq_iff n u, d.0)

pub length-lt :
    (s t : ExactSet) (n : Text)
    → Distinct s
    → ((u : Text) → member s u ≡ true → member t u ≡ true)
    → member s n ≡ false
    → member t n ≡ true
    → length s < length t
length-lt s t n d h out there = length-le (n ∷ s) t (out, d) (λ u k. inside u k)
  where
    inside : (u : Text) → member (n ∷ s) u ≡ true → member t u ≡ true
    inside u k = ground (arith, text_eq_iff n u, h u)

-- A part of a set with as many members has all of them.
pub member_of_length :
    (s t : ExactSet) (n : Text)
    → Distinct s
    → ((u : Text) → member s u ≡ true → member t u ≡ true)
    → length s ≡ length t
    → member t n ≡ true
    → member s n ≡ true
member_of_length s t n d h same there = elim (Bool-cases (member s n)) [
  | inl e ↦ e
  | inr out ↦ absurd (omega (arith, length-lt s t n d h out there))
]
