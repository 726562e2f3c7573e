-- ===== src/Scan.antt =====
-- api/securitytest: one module for the state of a scan, one for the filing of findings, and one
-- for each security tool.
pub mod State
pub mod Filing
pub mod Gosec
pub mod Bandit
pub mod Brakeman
pub mod Tfsec
pub mod Safety
pub mod Gitleaks
pub mod SpotBugs
pub mod NpmAudit
pub mod YarnAudit
pub mod SecurityCodeScan
pub mod Enry
pub mod Failure
pub mod Start
