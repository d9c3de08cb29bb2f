-- ===== src/Postgresql.antt =====
-- The backend postgresql/generic/postgresql.c.
pub mod Open
pub mod Session
pub mod Exec
pub mod Fetch
pub mod Held
pub mod Tests
