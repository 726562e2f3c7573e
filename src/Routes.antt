-- ===== src/Routes.antt =====
-- api/routes/analysis.go: the handlers of the API.
pub mod Receive
pub mod Guards
pub mod Bypass
pub mod Files
pub mod Tokens
