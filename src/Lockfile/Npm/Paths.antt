-- ===== src/Lockfile/Npm/Paths.antt =====
-- The install paths of internal/lockfile/npm.go: the package that a path installs, and whether it
-- is at the top.
use keyholders.Base.{
  ◌≡◌, refl, ap, ◌∙◌, true, false, not, [], ◌∷◌, ◌++◌, Option, none, some, Text, has_prefix, arith,
}
use keyholders.Lockfile.Words.{after_last, contains_text, trim_prefix}
use keyholders.Lockfile.Npm.{marker, package_name_from_path, at_top}

after_last-append :
    (m s behind path : Text) → after_last m s ≡ some behind → after_last m (path ++ s) ≡ some behind
unfolding after_last
after_last-append m s behind [] h = h
after_last-append m s behind (c ∷ path) h =
    rw (after_last, after_last-append m s behind path h) refl

-- Where the text behind the marker has no marker of its own, the marker is the last one.
after_last-marker :
    (name : Text) → after_last marker name ≡ none → after_last marker (marker ++ name) ≡ some name
unfolding after_last has_prefix
after_last-marker name h = rw h refl

contains-none : (s : Text) → contains_text marker s ≡ false → after_last marker s ≡ none
contains-none s h = cases (after_last marker s) refl
  where
    cases : (o : Option Text) → after_last marker s ≡ o → after_last marker s ≡ none
    cases none e = e
    cases (some behind) e = ground (arith, e, h)

trim_marker : (s : Text) → trim_prefix marker (marker ++ s) ≡ s
unfolding has_prefix
trim_marker s = refl

-- A name that holds no `node_modules/` is what its install path gives, however deep it is nested;
-- the path is at the top when nothing is in front, and not when another `node_modules/` is.
pub package_name_from_path-nested :
    (path name : Text)
    → contains_text marker name ≡ false
    → (package_name_from_path (path ++ (marker ++ name)) ≡ name)
      × (at_top (marker ++ name) ≡ true)
      × (at_top (marker ++ (path ++ (marker ++ name))) ≡ false)
unfolding package_name_from_path
package_name_from_path-nested path name h =
    let last = after_last-marker name (contains-none name h) in
    let deep = after_last-append marker (marker ++ name) name path last in
    (
      ap (λ (o : Option Text). elim o [ none ↦ [] | some n ↦ n ]) deep,
      ap (λ s. not (contains_text marker s)) (trim_marker name) ∙ ap not h,
      ap (λ s. not (contains_text marker s)) (trim_marker (path ++ (marker ++ name)))
          ∙ ap (λ (o : Option Text). not (elim o [ none ↦ false | some n ↦ true ])) deep,
    )
