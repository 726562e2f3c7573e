-- ===== src/Docker.antt =====
-- api/dockers: pulling images and running containers.
pub mod Pull
pub mod Attempts
pub mod Run
pub mod Extract
pub mod Leaves
pub mod Cleanup
