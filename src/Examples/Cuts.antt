-- ===== src/Examples/Cuts.antt =====
-- internal/query/cut.go on the graph of the search: one account holds the package in the middle.
use keyholders.Base.{
  ◌≡◌, ◌↔◌, refl, false, [], ◌∷◌, Text, bytes, text_eq, text_lt, lookup, put, In, cut_last,
}
use keyholders.Query.Interval.{always, insert, covers, covers_from, coalesce, holds_at}
use keyholders.Query.Reach.{
  Outcome, ok, err, Result, reach, set_defaults, union_pass, union_rounds, start_union, read_edge,
  count_intervals, replay, levels, level, visit, follow, seed, admit,
}
use keyholders.Query.Audit.{Keyholder, package_urn_of}
use keyholders.Query.Cut.{
  Cut, versions_of, blocked_versions, reached_packages, lost_packages, beyond_packages, cut_of,
  cuts_from, cuts,
}
use keyholders.Query.Cut.Orphans.{Isolated, cuts_exact}
use keyholders.Examples.Search.{out, gather, exp, exp-Serves, from_a, ever}

abbrev nothing_found : Result
nothing_found = record {
  coexistence = [];
  union = [];
  depth = 0;
  truncated = false;
  edges = [];
  sources = [];
  opts = ever;
  intervals = 0;
  frontiers = [];
}

abbrev result_of : Outcome Result → Result
result_of (ok r) = r
result_of (err e) = nothing_found

abbrev found : Result
found = result_of (reach exp from_a ever)

found-ok : reach exp from_a ever ≡ ok found
unfolding reach set_defaults union_pass union_rounds start_union exp gather text_eq read_edge
found-ok = refl

abbrev holder : Keyholder
holder = record {
  handle = bytes "mallory";
  through = (bytes "pkg:npm/b", always ∷ []) ∷ [];
  since = 0;
}

abbrev cut : Cut
cut = record {
  handle = bytes "mallory";
  controls = 1;
  packages = 2;
  versions = 2;
  beyond = 1;
  orphaned = bytes "pkg:npm/c" ∷ [];
}

cuts-found : cuts found (holder ∷ []) ≡ cut ∷ []
unfolding cuts cuts_from cut_of versions_of blocked_versions reached_packages lost_packages
    beyond_packages package_urn_of cut_last reach set_defaults union_pass union_rounds start_union
    read_edge count_intervals replay levels level visit follow seed admit insert covers covers_from
    coalesce holds_at lookup put text_eq text_lt gather exp
cuts-found = refl

cut-In : In cut (cuts found (holder ∷ []))
cut-In = rw cuts-found In.head

cuts_exact_example :
    (k : Keyholder) × In k (holder ∷ [])
    × (cut.handle ≡ k.handle)
    × ((p : Text) → In p cut.orphaned ↔ Isolated from_a ever out k.through p)
cuts_exact_example =
    cuts_exact exp out from_a ever found exp-Serves found-ok (holder ∷ []) cut cut-In
