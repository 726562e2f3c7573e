-- ===== src/Token.antt =====
-- api/token: the access tokens of the API, their database as an interface, and what a token allows.
pub mod Defs
pub mod Laws
pub mod Memory
pub mod Mongo
