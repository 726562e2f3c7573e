-- ===== src/Auth.antt =====
-- api/auth, api/user and the route that changes a password.
pub mod Login
pub mod Users
pub mod Laws
