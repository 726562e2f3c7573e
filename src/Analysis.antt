-- ===== src/Analysis.antt =====
-- api/analysis/analysis.go: an analysis from its registration to its end.
pub mod Start
pub mod Report
