-- ===== src/Base/Lists.antt =====
-- Lists measured by native numbers, membership as an inductive family, and insertion sort.
use Prim.Native.Nat.{ℕ, suc, ◌+◌}
use mathlib.Core.Path.{◌≡◌, refl, subst}
use mathlib.Core.Logic.{◌⊎◌, inl, inr}
use mathlib.Core.Bool.{Bool}
use mathlib.Core.List.{List, [], ◌∷◌, ◌++◌, map, foldl}
use native.Mathlib.Omega.{arith}
use keyholders.Base.Tests.{if◌then◌else◌, Bool-cases}

module _ {ℓ} {A : Type ℓ} where
  abbrev pub length : List A → ℕ
  length [] = 0
  length (x ∷ xs) = suc (length xs)

  -- `a` is an element of the list; a proof is its place.
  pub data In (a : A) : List A → Type ℓ where
    head : {xs : List A} → In a (a ∷ xs)
    tail : {x : A} {xs : List A} → In a xs → In a (x ∷ xs)

  -- Every element satisfies `P`.
  abbrev pub All {κ} : (A → Type κ) → List A → Type κ
  All P [] = Unit
  All P (x ∷ xs) = P x × All P xs

  pub length-append : (xs ys : List A) → length (xs ++ ys) ≡ length xs + length ys
  length-append [] ys = omega arith
  length-append (x ∷ xs) ys = omega (arith, length-append xs ys)

module _ {ℓ} {A : Type ℓ} where
  pub All-In {κ} : (P : A → Type κ) {a : A} {xs : List A} → In a xs → All P xs → P a
  All-In P In.head h = h.0
  All-In P (In.tail m) h = All-In P m h.1

  pub In-append_left : {a : A} {xs : List A} (ys : List A) → In a xs → In a (xs ++ ys)
  In-append_left ys In.head = In.head
  In-append_left ys (In.tail m) = In.tail (In-append_left ys m)

  pub In-append_right : {a : A} (xs : List A) {ys : List A} → In a ys → In a (xs ++ ys)
  In-append_right [] m = m
  In-append_right (x ∷ xs) m = In.tail (In-append_right xs m)

  pub In-append : {a : A} (xs ys : List A) → In a (xs ++ ys) → In a xs ⊎ In a ys
  In-append [] ys m = inr m
  In-append (x ∷ xs) ys In.head = inl In.head
  In-append (x ∷ xs) ys (In.tail m) = elim (In-append xs ys m) [
    | inl l ↦ inl (In.tail l)
    | inr r ↦ inr r
  ]

  pub List-cases : (xs : List A) → (xs ≡ []) ⊎ ((x : A) × (rest : List A) × (xs ≡ x ∷ rest))
  List-cases [] = inl refl
  List-cases (x ∷ xs) = inr (x, xs, refl)

  pub In-cons : {a x : A} {xs : List A} → In a (x ∷ xs) → (a ≡ x) ⊎ In a xs
  In-cons In.head = inl refl
  In-cons (In.tail m) = inr m

  pub In-cons_of : {a x : A} (xs : List A) → (a ≡ x) ⊎ In a xs → In a (x ∷ xs)
  In-cons_of {a} xs (inl e) = subst (λ y. In a (y ∷ xs)) e (In.head {xs = xs})
  In-cons_of xs (inr m) = In.tail m

  pub In-singleton : {a b : A} → In a (b ∷ []) → a ≡ b
  In-singleton In.head = refl
  In-singleton (In.tail m) = elim m [ ]

  pub In-snoc : {a b : A} (xs : List A) → In a (xs ++ b ∷ []) → In a xs ⊎ (a ≡ b)
  In-snoc xs m = elim (In-append xs _ m) [ inl l ↦ inl l | inr r ↦ inr (In-singleton r) ]

  -- `sort.Slice` as an insertion sort that keeps the order of equal members: `less` is the callback.
  abbrev pub insert_by : (A → A → Bool) → A → List A → List A
  insert_by less a [] = a ∷ []
  insert_by less a (x ∷ xs) = if less x a then x ∷ insert_by less a xs else a ∷ x ∷ xs

  abbrev pub sort_by : (A → A → Bool) → List A → List A
  sort_by less [] = []
  sort_by less (x ∷ xs) = insert_by less x (sort_by less xs)

pub In-map {ℓ κ} :
    {A : Type ℓ} {B : Type κ} (f : A → B) {a : A} {xs : List A} → In a xs → In (f a) (map f xs)
In-map f In.head = In.head
In-map f (In.tail m) = In.tail (In-map f m)

pub In-map_inv {ℓ κ} :
    {A : Type ℓ} {B : Type κ} (f : A → B) {b : B} (xs : List A)
    → In b (map f xs)
    → (a : A) × In a xs × (b ≡ f a)
In-map_inv f [] m = elim m [ ]
In-map_inv f (x ∷ xs) In.head = (x, In.head, refl)
In-map_inv f (x ∷ xs) (In.tail m) = let (a, h, e) = In-map_inv f xs m in (a, In.tail h, e)

pub foldl-map {ℓ κ μ} :
    {A : Type ℓ} {B : Type κ} {S : Type μ} (g : S → B → S) (f : A → B) (s : S) (xs : List A)
    → foldl g s (map f xs) ≡ foldl (λ s x. g s (f x)) s xs
foldl-map g f s [] = refl
foldl-map g f s (x ∷ xs) = foldl-map g f (g s (f x)) xs

module _ {ℓ} {A : Type ℓ} (less : A → A → Bool) where
  -- An insertion adds one member, and a sort keeps the members.
  pub In-insert_by :
      (a : A) {x : A} (xs : List A)
      → (In x (insert_by less a xs) → (x ≡ a) ⊎ In x xs)
        × ((x ≡ a) ⊎ In x xs → In x (insert_by less a xs))
  In-insert_by a [] = (λ m. In-cons m, λ h. In-cons_of [] h)
  In-insert_by a {x} (y ∷ xs) = elim (Bool-cases (less y a)) [
    | inr here ↦ rw here (λ m. In-cons m, λ h. In-cons_of (y ∷ xs) h)
    | inl later ↦ rw later (
      λ m. elim (In-cons m) [
        | inl e ↦ inr (In-cons_of xs (inl e))
        | inr n ↦ elim ((In-insert_by a xs).0 n) [ inl e ↦ inl e | inr k ↦ inr (In.tail k) ]
      ],
      λ h. elim h [
        | inl e ↦ In.tail ((In-insert_by a xs).1 (inl e))
        | inr m ↦ elim (In-cons m) [
          | inl e ↦ In-cons_of (insert_by less a xs) (inl e)
          | inr k ↦ In.tail ((In-insert_by a xs).1 (inr k))
        ]
      ],
    )
  ]

  pub In-sort_by :
      {x : A} (xs : List A)
      → (In x (sort_by less xs) → In x xs) × (In x xs → In x (sort_by less xs))
  In-sort_by [] = (λ m. m, λ m. m)
  In-sort_by (y ∷ xs) = (
    λ m. elim ((In-insert_by y (sort_by less xs)).0 m) [
      | inl e ↦ In-cons_of xs (inl e)
      | inr k ↦ In.tail ((In-sort_by xs).0 k)
    ],
    λ m.
        (In-insert_by y (sort_by less xs)).1
          (elim (In-cons m) [ inl e ↦ inl e | inr k ↦ inr ((In-sort_by xs).1 k) ]),
  )

pub All-weaken {ℓ κ μ} :
    {A : Type ℓ} (P : A → Type κ) (Q : A → Type μ) (xs : List A)
    → ((x : A) → P x → Q x)
    → All P xs
    → All Q xs
All-weaken P Q [] f h = tt
All-weaken P Q (x ∷ xs) f h = (f x h.0, All-weaken P Q xs f h.1)

pub All-insert_by {ℓ κ} :
    {A : Type ℓ} (P : A → Type κ) (less : A → A → Bool) (a : A) (xs : List A)
    → P a
    → All P xs
    → All P (insert_by less a xs)
All-insert_by P less a [] p h = (p, tt)
All-insert_by P less a (x ∷ xs) p h = elim (Bool-cases (less x a)) [
  | inr here ↦ rw here (p, h)
  | inl later ↦ rw later (h.0, All-insert_by P less a xs p h.1)
]
