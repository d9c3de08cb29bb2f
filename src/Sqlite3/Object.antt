-- ===== src/Sqlite3/Object.antt =====
-- The object commands of sqlite3/generic/sqlite.c: get, insert, set, unset and delete, each from its
-- arguments to its result, with every call of SQLite on the way.
pub mod Common
pub mod Remove
pub mod Store
pub mod Read
pub mod Clean
pub mod Safe
pub mod Results
