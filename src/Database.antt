-- ===== src/Database.antt =====
-- api/db: the two implementations of the database interface `Requests`. `Query` builds the texts
-- of Postgres, `Rows` has the rows that both write, `Postgres` and `Mongo` are the operations.
pub mod Query
pub mod Clauses
pub mod Columns
pub mod Arrays
pub mod Trims
pub mod Slices
pub mod Rows
pub mod Postgres
pub mod Requests
pub mod Mongo
pub mod Stats
pub mod Metrics
pub mod Guards
pub mod Answers
