-- ===== src/Run.antt =====
-- api/securitytest/run.go: the results of a run, the verdict over its containers, and the joining
-- of the concurrent scans.
pub mod Results
pub mod Vulns
pub mod Verdict
pub mod Join
pub mod Scans
pub mod Outcome
pub mod Order
pub mod Lost
pub mod Start
pub mod Progress
pub mod Errors
pub mod Panics
pub mod Races
