-- ===== src/Config.antt =====
-- api/context and api/util/api: the configuration of the API, the addresses of the Docker hosts
-- and the checks before it starts.
pub mod Env
pub mod Hosts
pub mod Rotation
pub mod Turns
pub mod Requirements
