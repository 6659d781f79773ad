-- ===== src/Examples/Proofs.antt =====
-- internal/query/proof.go on a database that offers two paths, and internal/query/signals.go and
-- internal/query/who.go on one account.
use keyholders.Base.{
  ℕ, ◌≡◌, ◌↔◌, refl, Bool, true, false, List, [], ◌∷◌, Option, some, Text, Table, bytes, Read,
  has_prefix, cut, any, sort_by, lookup, text_eq,
}
use keyholders.Query.Interval.{Set, always, contains}
use keyholders.Query.Who.{by_urn, version_entries}
use keyholders.Query.Who.Sources.{is_source, is_exposed, sources-exposed}
use keyholders.Query.Rows.{Value, Props, Row, VersionAttrs}
use keyholders.Query.Urns.{npm_urn, scoped, name_at_version}
use keyholders.Query.Audit.{Keyholder}
use keyholders.Query.Proof.{Chain, Paths, Outcome, coexistence_chain, proof_path}
use keyholders.Query.Proof.Chains.{all_valid, Proves, coexistence_chain-Proves}
use keyholders.Query.Proof.Shortest.{offered, IsShortest, proof_path-IsShortest}
use keyholders.Query.Signals.{signals_for}
use keyholders.Query.Signals.Counted.{counted, versions_of_all, signals_for-counted}

abbrev node : Text → Props
node urn = (bytes "urn", Value.text urn) ∷ []

abbrev span : ℕ → ℕ → Props
span from to = (bytes "valid_from", Value.int from) ∷ (bytes "valid_to", Value.int to) ∷ []

abbrev a : Text
a = bytes "pkg:npm/a@1.0.0"

abbrev b : Text
b = bytes "pkg:npm/b@1.0.0"

abbrev c : Text
c = bytes "pkg:npm/c@1.0.0"

coexistence_chain-Proves_example :
    (((chain : Chain) × (coexistence_chain
            (node a ∷ node b ∷ node c ∷ [])
            (span 10 20 ∷ span 15 30 ∷ [])
          ≡ some chain))
      ↔ ((t : ℕ) × (contains always t ≡ true)
          × (all_valid (span 10 20 ∷ span 15 30 ∷ []) t ≡ true)))
    × ((chain : Chain)
        → coexistence_chain (node a ∷ node b ∷ node c ∷ []) (span 10 20 ∷ span 15 30 ∷ [])
          ≡ some chain
        → Proves (node a ∷ node b ∷ node c ∷ []) (span 10 20 ∷ span 15 30 ∷ []) chain)
coexistence_chain-Proves_example =
    coexistence_chain-Proves (node a ∷ node b ∷ node c ∷ []) (span 10 20 ∷ span 15 30 ∷ []) refl

-- A long path, a short one, and one whose edges share no instant.
abbrev rows : List Row
rows =
    Row.path (node a ∷ node b ∷ node c ∷ []) (span 10 20 ∷ span 15 30 ∷ [])
    ∷ Row.path (node b ∷ node c ∷ []) (span 15 30 ∷ [])
    ∷ Row.path (node a ∷ node b ∷ node c ∷ []) (span 10 20 ∷ span 20 30 ∷ [])
    ∷ []

abbrev db : Paths
db call = Read.got rows

proof_path-IsShortest_example :
    (best : Option Chain) × (proof_path db (a ∷ b ∷ []) c 0 ≡ Outcome.ok best)
    × IsShortest (offered (λ chunk. rows) (a ∷ b ∷ [])) best
unfolding npm_urn has_prefix scoped name_at_version cut
proof_path-IsShortest_example =
    proof_path-IsShortest db c 0 (λ chunk. rows) (λ chunk. refl) (a ∷ b ∷ []) refl

abbrev version : ℕ → Bool → Bool → VersionAttrs
version at has_provenance annotated = record {
  urn = a;
  published_at = at;
  published_by = bytes "mallory";
  has_provenance = has_provenance;
  has_install_script = false;
  deprecated = false;
  annotated = annotated;
}

abbrev spells : Set
spells = record { from = 5; to = 20 } ∷ record { from = 30; to = 50 } ∷ []

abbrev mallory : Keyholder
mallory = record {
  handle = bytes "mallory";
  through = (bytes "pkg:npm/a", always ∷ []) ∷ (bytes "pkg:npm/b", always ∷ []) ∷ [];
  since = 0;
}

abbrev held : Table ℕ
held = (bytes "pkg:npm/a", 1) ∷ (bytes "pkg:npm/b", 2) ∷ []

abbrev sampled : Table (List VersionAttrs)
sampled = (bytes "pkg:npm/a", version 10 false true ∷ version 30 true false ∷ []) ∷ []

signals_for-counted_example :
    signals_for mallory held sampled
    ≡ counted mallory.handle held mallory.through (versions_of_all sampled mallory.through)
signals_for-counted_example = signals_for-counted mallory held sampled

-- One version, of a package that was left and taken up again.
sources-exposed_example :
    any (is_source a 40) (
      sort_by by_urn (
        version_entries
          ((bytes "pkg:npm/a", spells) ∷ [])
          always
          ((bytes "pkg:npm/a", version 10 true true) ∷ [])))
    ≡ any
        (is_exposed ((bytes "pkg:npm/a", spells) ∷ []) always a 40)
        ((bytes "pkg:npm/a", version 10 true true) ∷ [])
sources-exposed_example =
    sources-exposed ((bytes "pkg:npm/a", spells) ∷ []) always
      ((bytes "pkg:npm/a", version 10 true true) ∷ []) a 40

exposed-run :
    (any
        (is_exposed ((bytes "pkg:npm/a", spells) ∷ []) always a 25)
        ((bytes "pkg:npm/a", version 10 true true) ∷ [])
      ≡ false)
    × (any
          (is_exposed ((bytes "pkg:npm/a", spells) ∷ []) always a 40)
          ((bytes "pkg:npm/a", version 10 true true) ∷ [])
        ≡ true)
unfolding lookup text_eq
exposed-run = (refl, refl)
