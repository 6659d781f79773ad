-- ===== src/Examples.antt =====
-- Tests of the definitions, and the theorems at concrete inputs.
mod Intervals
mod Search
mod Cuts
mod Names
mod Sketches
mod Estimates
mod Spells
mod Incidents
mod Epochs
mod Boards
mod Versions
mod Ranges
mod Windows
mod Advisories
mod Distances
mod Squats
mod Snapshots
mod Expansion
mod Lookups
mod Lockfiles
mod Proofs
