-- ===== src/Tests.antt =====
-- Runs of the models at concrete inputs.
mod World
mod Joins
mod Scans
mod Patterns
mod Tokens
mod Requests
mod Clients
mod Databases
mod Users
mod Infrastructure
mod Outputs
mod Uploads
