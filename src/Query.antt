-- ===== src/Query.antt =====
-- internal/query: reachability over intervals of validity.
pub mod Interval
pub mod Reach
pub mod Rows
pub mod Urns
pub mod Audit
pub mod Batch
pub mod Expander
pub mod Roster
pub mod Proof
pub mod Who
pub mod Signals
pub mod Cut
