-- ===== src/Sqlite.antt =====
-- The backend sqlite/generic/sqlite.c, on version 2 of SQLite.
pub mod Statement
pub mod Session
pub mod Exec
pub mod Fetch
pub mod Object
pub mod Tests
