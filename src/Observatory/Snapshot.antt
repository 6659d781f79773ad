-- ===== src/Observatory/Snapshot.antt =====
-- internal/observatory/snapshot.go: the version of a package that is current at an instant. A
-- publish time of zero or below is zero here.
pub mod Current
use keyholders.Base.{
  ℕ, Bool, true, false, not, ◌||◌, ltb, ◌==◌, if◌then◌else◌, List, [], ◌∷◌, Option, none, some,
  Text,
}

pub record Release : Type 0 where
  pub version : Text
  pub published_at : ℕ

-- The first dash or plus decides.
unfoldable pub is_prerelease : Text → Bool
is_prerelease [] = false
is_prerelease (c ∷ s) =
    let rest = is_prerelease s in if c == b'-' then true else if c == b'+' then false else rest

-- The guard of the loop, negated.
abbrev pub eligible : Release → ℕ → Bool
eligible r t = not (r.published_at == 0 || (ltb t r.published_at || is_prerelease r.version))

abbrev pub newer : Release → Option Release → Bool
newer r none = true
newer r (some best) = ltb best.published_at r.published_at

-- The loop.
unfoldable pub latest : Option Release → List Release → ℕ → Option Release
latest best [] t = best
latest best (r ∷ releases) t =
    let keep = latest best releases t in
    let replace = latest (some r) releases t in
    if eligible r t then (if newer r best then replace else keep) else keep

unfoldable pub current_version : List Release → ℕ → Option Release
current_version releases t = latest none releases t
