-- ===== src/Lockfile/Pins/Merged.antt =====
-- `normalise` of internal/lockfile/lockfile.go: the pins with one key become one.
use mathlib.Core.List.{foldl}
use keyholders.Base.{
  ◌≡◌, refl, sym, ap, ◌∙◌, inl, inr, Bool-cases, Bool, false, ◌&&◌, ◌||◌, not, if◌then◌else◌, List,
  [], ◌∷◌, Option, none, some, Text, text_eq, text_eq_iff, text_eq_refl, In, In-sort_by, arith,
}
use keyholders.Lockfile.Pins.{Pin, Lockfile, key, merge_pin, add_pin, pin_before, normalise}
use keyholders.Semver.Version.{is_empty}

-- The flags of a pin, or of several.
abbrev pub Flags : Type 0
Flags = Option (Bool × Bool)

abbrev together : Flags → Flags → Flags
together none g = g
together (some f) none = some f
together (some (direct, dev)) (some (more, less)) = some (direct || more, dev && less)

abbrev flags : Pin → Flags
flags p = some (p.direct, p.dev)

-- A pin with a name and a version.
abbrev pub is_pin : Pin → Bool
is_pin p = not (is_empty p.name) && not (is_empty p.version)

-- Direct where some pin with the key is, and of the development tree where all are; nothing where
-- there is none.
abbrev pub gathered : Text → List Pin → Flags
gathered k [] = none
gathered k (p ∷ pins) =
    let rest = gathered k pins in
    if is_pin p && text_eq (key p) k then together (flags p) rest else rest

-- The flags of the pin with the key.
abbrev found : Text → List Pin → Flags
found k [] = none
found k (q ∷ out) = let rest = found k out in if text_eq (key q) k then flags q else rest

abbrev Distinct : List Pin → Type 0
Distinct [] = Unit
Distinct (q ∷ out) = (found (key q) out ≡ none) × Distinct out

together_assoc : (f g h : Flags) → together (together f g) h ≡ together f (together g h)
together_assoc none g h = refl
together_assoc (some f) none h = refl
together_assoc (some f) (some g) none = refl
together_assoc (some (a, b)) (some (c, d)) (some (e, f)) = ground arith

together-none : (f : Flags) → together f none ≡ f
together-none none = refl
together-none (some f) = refl

key-merge_pin :
    (out : List Pin) (p : Pin) (k : Text)
    → found k (merge_pin out p)
      ≡ (if text_eq (key p) k then together (found k out) (flags p) else found k out)
unfolding merge_pin
key-merge_pin [] p k = refl
key-merge_pin (q ∷ out) p k = elim (Bool-cases (text_eq (key q) (key p))) [
  | inl same ↦
      let e = (text_eq_iff (key q) (key p)).0 same in
      rw (same, sym e)
        (elim (Bool-cases (text_eq (key q) k)) [
          | inl here ↦ rw here refl
          | inr other ↦ rw other refl
        ])
  | inr apart ↦
      rw (apart, key-merge_pin out p k)
        (elim (Bool-cases (text_eq (key q) k)) [
          | inr other ↦ rw other refl
          | inl here ↦
              let e = (text_eq_iff (key q) k).0 here in
              let no : text_eq (key p) k ≡ false =
                ground (arith, text_eq_iff (key p) k, text_eq_iff (key q) (key p), e, apart) in
              rw (here, no) refl
        ])
]

merge_pin-Distinct : (out : List Pin) (p : Pin) → Distinct out → Distinct (merge_pin out p)
unfolding merge_pin
merge_pin-Distinct [] p d = (refl, tt)
merge_pin-Distinct (q ∷ out) p d = elim (Bool-cases (text_eq (key q) (key p))) [
  | inl same ↦ rw same d
  | inr apart ↦ rw apart (
    key-merge_pin out p (key q)
        ∙ ground (arith, text_eq_iff (key p) (key q), text_eq_iff (key q) (key p), apart, d.0),
    merge_pin-Distinct out p d.1,
  )
]

add_pin-eq :
    (out : List Pin) (p : Pin) → add_pin out p ≡ (if is_pin p then merge_pin out p else out)
unfolding add_pin
add_pin-eq out p = ground arith

folded :
    (out pins : List Pin)
    → Distinct out
    → Distinct (foldl add_pin out pins)
      × ((k : Text) → found k (foldl add_pin out pins) ≡ together (found k out) (gathered k pins))
folded out [] d = (d, λ k. sym (together-none (found k out)))
folded out (p ∷ pins) d = elim (Bool-cases (is_pin p)) [
  | inl good ↦
      let e = add_pin-eq out p ∙ rw good refl in
      let (distinct, all) = folded (merge_pin out p) pins (merge_pin-Distinct out p d) in
      rw e (
        distinct,
        λ k.
            all k
            ∙ (ap (λ f. together f (gathered k pins)) (key-merge_pin out p k)
                ∙ rw good (elim (Bool-cases (text_eq (key p) k)) [
                  | inl here ↦ rw here (together_assoc (found k out) (flags p) (gathered k pins))
                  | inr other ↦ rw other refl
                ])),
      )
  | inr bad ↦
      let e = add_pin-eq out p ∙ rw bad refl in
      let (distinct, all) = folded out pins d in rw e (distinct, λ k. all k ∙ rw bad refl)
]

In-found : (q : Pin) (out : List Pin) → Distinct out → In q out → found (key q) out ≡ flags q
In-found q out d In.head = rw (text_eq_refl (key q)) refl
In-found q (r ∷ out) d (In.tail m) = elim (Bool-cases (text_eq (key r) (key q))) [
  | inr other ↦ rw other (In-found q out d.1 m)
  | inl same ↦
      let e = (text_eq_iff (key r) (key q)).0 same in
      absurd (clash (sym (In-found q out d.1 m) ∙ (ap (λ k. found k out) (sym e) ∙ d.0)))
]
  where
    clash : flags q ≡ none → ⊥
    clash h = cc

found-In :
    (out : List Pin) (k : Text) (f : Bool × Bool)
    → found k out ≡ some f
    → (q : Pin) × In q out × (key q ≡ k) × (flags q ≡ some f)
found-In [] k f h = cc
found-In (q ∷ out) k f h = elim (Bool-cases (text_eq (key q) k)) [
  | inl here ↦ (q, In.head, (text_eq_iff (key q) k).0 here, ground (arith, h, here))
  | inr other ↦
      let (r, m, e, g) = found-In out k f (ground (arith, h, other)) in (r, In.tail m, e, g)
]

abbrev direct_of : Flags → Bool
direct_of none = false
direct_of (some (direct, dev)) = direct

abbrev dev_of : Flags → Bool
dev_of none = false
dev_of (some (direct, dev)) = dev

-- A normalised lockfile pins exactly what the lockfile pins with a name and a version, by name and
-- version together: as direct where some such pin was, and as a development dependency where all
-- were.
pub normalise-gathered :
    (l : Lockfile)
    → ((q : Pin) → In q (normalise l).pins → gathered (key q) l.pins ≡ some (q.direct, q.dev))
      × ((k : Text) (direct dev : Bool)
          → gathered k l.pins ≡ some (direct, dev)
          → (q : Pin) × In q (normalise l).pins × (key q ≡ k) × (q.direct ≡ direct) × (q.dev ≡ dev))
unfolding normalise
normalise-gathered l =
    let (distinct, all) = folded [] l.pins tt in
    let out = foldl add_pin [] l.pins in
    (
      λ q m. sym (all (key q)) ∙ In-found q out distinct ((In-sort_by pin_before out).0 m),
      λ k direct dev h.
          let (q, m, e, f) = found-In out k (direct, dev) (all k ∙ h) in
          (q, (In-sort_by pin_before out).1 m, e, ap direct_of f, ap dev_of f),
    )
