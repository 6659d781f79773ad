-- ===== src/Query/Signals.antt =====
-- internal/query/signals.go: what is known of an account from the versions that were looked at. The
-- quotient of a fraction is floating point and not modelled.
pub mod Counted
use mathlib.Core.List.{foldl}
use keyholders.Base.{
  ℕ, suc, ◌+◌, ltb, ◌==◌, ◌&&◌, not, if◌then◌else◌, Bool, List, [], ◌∷◌, Option, none, some, Text,
  Table, text_eq, lookup,
}
use keyholders.Query.Audit.{Keyholder}
use keyholders.Query.Interval.{Set}
use keyholders.Query.Rows.{VersionAttrs}

pub record Fraction : Type 0 where
  pub count : ℕ
  pub of : ℕ

pub known : Fraction → Bool
known f = ltb 0 f.of

pub record Signals : Type 0 where
  pub solo : Fraction
  pub no_provenance : Fraction
  pub install_script : Fraction
  pub last_publish : ℕ
  pub last_release : ℕ

abbrev pub no_signals : Signals
no_signals = record {
  solo = record { count = 0; of = 0 };
  no_provenance = record { count = 0; of = 0 };
  install_script = record { count = 0; of = 0 };
  last_publish = 0;
  last_release = 0;
}

-- One observation: the denominator goes up, and the count with it where the test holds.
abbrev pub tally : Bool → Fraction → Fraction
tally hit f = record { count = if hit then suc f.count else f.count; of = suc f.of }

abbrev pub later : ℕ → ℕ → ℕ
later last at = if ltb last at then at else last

-- One version of a package.
unfoldable pub see_version : Text → Signals → VersionAttrs → Signals
see_version handle s a = record {
  solo = s.solo;
  no_provenance =
      if a.annotated then tally (not a.has_provenance) s.no_provenance else s.no_provenance;
  install_script =
      if a.annotated then tally a.has_install_script s.install_script else s.install_script;
  last_publish =
      if text_eq a.published_by handle then later s.last_publish a.published_at else s.last_publish;
  last_release = later s.last_release a.published_at;
}

-- Missing keys of the two maps read as zero and as no versions.
abbrev pub held_by : Table ℕ → Text → ℕ
held_by held pkg = elim (lookup pkg held) [ none ↦ 0 | some n ↦ n ]

abbrev pub versions_at : Table (List VersionAttrs) → Text → List VersionAttrs
versions_at sampled pkg = elim (lookup pkg sampled) [ none ↦ [] | some versions ↦ versions ]

abbrev pub count_solo : Bool → Signals → Signals
count_solo alone s = record {
  solo = tally alone s.solo;
  no_provenance = s.no_provenance;
  install_script = s.install_script;
  last_publish = s.last_publish;
  last_release = s.last_release;
}

-- One package of the account.
unfoldable pub see_package :
    Text → Table ℕ → Table (List VersionAttrs) → Signals → Text × Set → Signals
see_package handle held sampled s (pkg, spans) =
    foldl (see_version handle) (count_solo (held_by held pkg == 1) s) (versions_at sampled pkg)

unfoldable pub signals_for : Keyholder → Table ℕ → Table (List VersionAttrs) → Signals
signals_for k held sampled = foldl (see_package k.handle held sampled) no_signals k.through
