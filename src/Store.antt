-- ===== src/Store.antt =====
-- internal/storage/sqlite: the tables, and statements and transactions over them. SQLite itself is
-- outside the repository: a statement does to the tables what its SQL text says, or fails without
-- changing them; `faults` says, statement by statement, where the driver reports a failure.
pub mod Tables
pub mod Statements
pub mod Events
pub mod Users
pub mod Sessions
pub mod Credentials
pub mod Enrollments
pub mod Contents
pub mod Items
pub mod Grants
