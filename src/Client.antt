-- ===== src/Client.antt =====
-- The client that runs in a CI pipeline: client/analysis and client/cmd.
pub mod Summary
pub mod Exit
pub mod Sonar
pub mod Rules
