-- ===== src/Lib.antt =====
-- Keyholders: who can reach what in the npm registry, and when.
--
-- The program keeps a graph of packages, versions and maintainers whose edges carry the span of time
-- over which they held, and asks which nodes were reachable along edges that all held at one instant.
--
-- The parts and their files:
--   Query/Interval      internal/query/interval.go: half-open spans and canonical sets of them.
--   Query/Reach         internal/query/reach.go: the search. The union pass walks the graph without
--                       spans and caches the edges that it reads; the replay walks the cache with
--                       running intersections of the spans.
--   Semver/Version      internal/semver/version.go: parsing, precedence and printing of versions.
--   Semver/Range        internal/semver/range.go: ranges, their syntax in Range/Parse.
--   Resolve/Windows     internal/resolve/windows.go: the spans over which a declared range resolved to
--                       each version, from Semver and the open end of Query/Interval.
--   Advisory/Ranges     internal/advisory/ranges.go: the releases that an advisory range affects; uses
--                       Semver/Version.
--   Typosquat/Distance  internal/typosquat/distance.go: the edit distance of two names.
--   Typosquat/Normalize, Typosquat/Candidates
--                       internal/typosquat/normalize.go and internal/typosquat/candidates.go: the names
--                       that are compared, and the pairs that are flagged.
--   Query/Rows          what internal/query reads off the properties of nodes and edges.
--   Query/Urns          the names that may stand in a statement, and their quoting.
--   Query/Batch         the shape of the batched reads, over a database that is a parameter: chunks of
--                       sources, read in halves where a result may be cut off.
--   Query/Expander      internal/query/expander.go: the reads that Query/Reach walks with.
--   Query/Audit         internal/query/audit.go: the accounts of a roster and the package of a version.
--   Query/Roster        the same file: from a search to the accounts that hold a key.
--   Query/Who           internal/query/who.go: the search from an account's packages to their dependents.
--   Query/Signals       internal/query/signals.go: what is known of an account.
--   Query/Proof         internal/query/proof.go: chains of edges that share an instant.
--   Query/Cut           internal/query/cut.go: what falls with one account; replays Query/Reach without the
--                       versions of that account's packages.
--   Graph/Id            internal/graph/id.go: the names of nodes and edges, and their ids.
--   Sketch/Exact        internal/sketch/exact.go: exact sets, as one implementation of a sketch.
--   Sketch/Engine       internal/sketch/sketch.go: which packages reach which, from scratch for an epoch.
--   Sketch/Hll          internal/sketch/hll.go: the registers of the estimator; the hash shares its loop
--                       with Graph/Id.
--   Ingest/Spells       internal/ingest/rows.go: when an account held a package, from samples.
--   Lockfile/Pins, Lockfile/Npm, Lockfile/Pnpm, Lockfile/Yarn
--                       internal/lockfile: the pins of a lockfile, from its lines or its document.
--   Incident/Bisect     internal/incident/bisect.go: the release that introduced a vulnerability.
--   Incident/Live       internal/incident/resolved_while_live.go: locks inside a resolution window.
--   Observatory/Snapshot
--                       internal/observatory/snapshot.go: the version current at an instant.
--   Observatory/Snapshots
--                       the rest of that file: the edges of every epoch, which Sketch/Engine takes.
--   Observatory/Leaderboard
--                       internal/observatory/leaderboard.go: the ranking of the sketches.
--   Base                bytes, lists, tables and decimals that the parts share; the functions of the
--                       Go packages strings and strconv that the source calls are written out there.
--   Examples            runs at concrete inputs.
--
-- How the code corresponds. A Go function keeps its name in lower case with underscores; a method is a
-- function of its receiver. An instant (int64 seconds) is a natural number, since no instant before
-- 1970 is stored; a Go string is the list of its bytes; an error result is none or the error of an
-- Outcome; a Go map is an association list whose missing key reads as the zero value. Instants stay
-- below open_interval = 4102444800, so that sums and successors on them do not wrap; uint64 version
-- numbers wrap where the code adds one. A loop over a slice is recursion on the list. The loops over
-- the depth in internal/query/reach.go are recursion on the rounds that are left, which is the code's
-- own bound MaxDepth and no extra fuel. sort.Slice is an insertion sort that keeps equal
-- members in order, an order that sort.Slice leaves open for long slices.
--
-- The loop of RunEpoch in internal/sketch/sketch.go has no bound in the code; run_epoch counts its
-- rounds down, none is a loop that did not end, and a number of rounds above the square of the number
-- of names is enough. Its workers only read what they share, so a round is the list of their results.
--
-- The sources of internal/incident and internal/observatory are records of functions that answer a
-- read with a value or an error (Read). A panic of internal/sketch/hll.go, on an index out of
-- range, on sketches of two precisions or on a length that make refuses (above 2 ^ 48 bytes on
-- 64-bit platforms, or negative), is none; its floating point estimate is a parameter, and running
-- out of memory is not modelled.
--
-- Text is taken as ASCII in two places: strings.TrimSpace takes off ASCII white space only, and
-- the edit distance of two names, which the source computes on runes, is computed on their bytes.
--
-- The graph behind Expander is a parameter: the theorems on Reach say what they need of it, that it
-- answers every read (Answers), or that what it answers are the edges out of the nodes asked (Serves).
--
-- The database behind Query/Batch and Query/Proof is a parameter as well. A statement is reduced
-- to what varies in it: the quoted names, the edge type, the direction, a target, a length and the
-- limit. What the theorems need of it is a record (Procedure): its rows are hops of one graph out
-- of the names in the statement, a result below the limit has all of them, and no single name
-- reaches the limit. A set of sources is split at most as often as it has members. The lines of a
-- lockfile and the document decoded from a JSON file are arguments, since a scanner and a decoder
-- of Go's standard library give them.
--
-- Not modelled: the database and registry clients, the HTTP API, the commands, the web interface and
-- the configuration, which are input and output; the drivers that read and write the graph around the
-- modelled steps (internal/resolve/resolve.go, internal/ingest/ingest.go, Audit and the check of its pins
-- in internal/query/audit.go, the reads of sampled versions in internal/query/signals.go, the write-backs
-- of internal/observatory and internal/typosquat); the risk score and other floating point numbers; and
-- the concurrency of the workers.
pub mod Base
pub mod Query
pub mod Semver
pub mod Resolve
pub mod Advisory
pub mod Sketch
pub mod Typosquat
pub mod Observatory
pub mod Graph
pub mod Ingest
pub mod Lockfile
pub mod Incident
pub mod Examples
