-- ===== src/Advisory/Ranges/Affected.antt =====
-- `affectedVersions` of internal/advisory/ranges.go: which releases a range affects.
use keyholders.Semver.Version.{Version}
