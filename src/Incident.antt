-- ===== src/Incident.antt =====
-- internal/incident: the questions that an incident raises, over sources that answer reads.
pub mod Bisect
pub mod Live
