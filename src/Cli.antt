-- ===== src/Cli.antt =====
-- cli: the command line interface.
pub mod Targets
pub mod Wizard
pub mod Counts
pub mod Current
pub mod Commands
pub mod Report
pub mod Poll
pub mod Languages
pub mod Status
pub mod Groups
pub mod Found
pub mod Send
pub mod Sent
