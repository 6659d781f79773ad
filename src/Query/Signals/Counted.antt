-- ===== src/Query/Signals/Counted.antt =====
-- The signals of internal/query/signals.go as counts over all versions of an account's packages.
use mathlib.Core.List.{foldl}
use keyholders.Base.{
  ℕ, ◌+◌, max, ◌≡◌, ap, ◌∙◌, true, ◌==◌, ◌&&◌, not, if◌then◌else◌, Bool, List, [], ◌∷◌, ◌++◌,
  length, Text, Table, text_eq, arith,
}
use keyholders.Query.Audit.{Keyholder}
use keyholders.Query.Interval.{Set}
use keyholders.Query.Rows.{VersionAttrs}
use keyholders.Query.Signals.{
  Fraction, Signals, no_signals, see_version, held_by, versions_at, count_solo, see_package,
  signals_for,
}

-- How many members pass, and the greatest number among those that do.
abbrev pub count {ℓ} : {A : Type ℓ} → (A → Bool) → List A → ℕ
count p [] = 0
count p (x ∷ xs) = (if p x then 1 else 0) + count p xs

abbrev pub greatest : (VersionAttrs → Bool) → List VersionAttrs → ℕ
greatest p [] = 0
greatest p (a ∷ versions) =
    if p a then max a.published_at (greatest p versions) else greatest p versions

-- All versions of the packages, in the order of the packages.
abbrev pub versions_of_all : Table (List VersionAttrs) → Table Set → List VersionAttrs
versions_of_all sampled [] = []
versions_of_all sampled ((pkg, spans) ∷ through) =
    versions_at sampled pkg ++ versions_of_all sampled through

-- The counts that the signals should be.
abbrev pub counted : Text → Table ℕ → Table Set → List VersionAttrs → Signals
counted handle held through versions = record {
  solo = record {
    count = count (λ (pkg, spans). held_by held pkg == 1) through;
    of = length through;
  };
  no_provenance = record {
    count = count (λ a. a.annotated && not a.has_provenance) versions;
    of = count (λ a. a.annotated) versions;
  };
  install_script = record {
    count = count (λ a. a.annotated && a.has_install_script) versions;
    of = count (λ a. a.annotated) versions;
  };
  last_publish = greatest (λ a. text_eq a.published_by handle) versions;
  last_release = greatest (λ a. true) versions;
}

abbrev sum : Fraction → Fraction → Fraction
sum f g = record { count = f.count + g.count; of = f.of + g.of }

abbrev both : Signals → Signals → Signals
both s t = record {
  solo = sum s.solo t.solo;
  no_provenance = sum s.no_provenance t.no_provenance;
  install_script = sum s.install_script t.install_script;
  last_publish = max s.last_publish t.last_publish;
  last_release = max s.last_release t.last_release;
}

versions-folded :
    (handle : Text) (held : Table ℕ) (s : Signals) (versions : List VersionAttrs)
    → foldl (see_version handle) s versions ≡ both s (counted handle held [] versions)
versions-folded handle held s [] = ground arith
versions-folded handle held s (a ∷ versions) =
    versions-folded handle held (see_version handle s a) versions ∙ step
  where
    step :
        both (see_version handle s a) (counted handle held [] versions)
        ≡ both s (counted handle held [] (a ∷ versions))
    step = unfold see_version in ground arith

count-append {ℓ} :
    {A : Type ℓ} (p : A → Bool) (xs ys : List A) → count p (xs ++ ys) ≡ count p xs + count p ys
count-append p [] ys = omega arith
count-append p (x ∷ xs) ys = omega (arith, count-append p xs ys)

greatest-append :
    (p : VersionAttrs → Bool) (xs ys : List VersionAttrs)
    → greatest p (xs ++ ys) ≡ max (greatest p xs) (greatest p ys)
greatest-append p [] ys = ground arith
greatest-append p (a ∷ xs) ys = ground (arith, greatest-append p xs ys)

-- The counts of one package, and of those that follow.
counted-cons :
    (handle : Text) (held : Table ℕ) (s : Signals) (pkg : Text) (spans : Set) (through : Table Set)
    (versions rest : List VersionAttrs)
    → both
        (both (count_solo (held_by held pkg == 1) s) (counted handle held [] versions))
        (counted handle held through rest)
      ≡ both s (counted handle held ((pkg, spans) ∷ through) (versions ++ rest))
counted-cons handle held s pkg spans through versions rest =
    rw
      (
        count-append (λ a. a.annotated && not a.has_provenance) versions rest,
        count-append (λ a. a.annotated && a.has_install_script) versions rest,
        count-append (λ a. a.annotated) versions rest,
        greatest-append (λ a. text_eq a.published_by handle) versions rest,
        greatest-append (λ a. true) versions rest,
      )
      (ground arith)

packages-folded :
    (handle : Text) (held : Table ℕ) (sampled : Table (List VersionAttrs)) (s : Signals)
    (through : Table Set)
    → foldl (see_package handle held sampled) s through
      ≡ both s (counted handle held through (versions_of_all sampled through))
packages-folded handle held sampled s [] = ground arith
packages-folded handle held sampled s ((pkg, spans) ∷ through) =
    packages-folded handle held sampled (see_package handle held sampled s (pkg, spans)) through
    ∙ (here ∙ rest)
  where
    all : List VersionAttrs
    all = versions_of_all sampled through

    versions : List VersionAttrs
    versions = versions_at sampled pkg

    start : Signals
    start = count_solo (held_by held pkg == 1) s

    here :
        both (see_package handle held sampled s (pkg, spans)) (counted handle held through all)
        ≡ both (both start (counted handle held [] versions)) (counted handle held through all)
    here =
        unfold see_package in
        ap (λ (x : Signals). both x (counted handle held through all))
          (versions-folded handle held start versions)

    rest :
        both (both start (counted handle held [] versions)) (counted handle held through all)
        ≡ both s (counted handle held ((pkg, spans) ∷ through) (versions ++ all))
    rest = counted-cons handle held s pkg spans through versions all

-- The signals of an account are counts: of its packages, those that it alone holds; of the versions
-- of its packages that were looked at, those without provenance and those with an install script;
-- and the latest publish by the account and by anyone.
pub signals_for-counted :
    (k : Keyholder) (held : Table ℕ) (sampled : Table (List VersionAttrs))
    → signals_for k held sampled
      ≡ counted k.handle held k.through (versions_of_all sampled k.through)
signals_for-counted k held sampled =
    unfold signals_for in packages-folded k.handle held sampled no_signals k.through ∙ ground arith
