-- ===== src/Sqlite3.antt =====
-- The sqlite3 backend, sqlite3/generic/.
pub mod Collate
pub mod Host
pub mod Session
pub mod Row
pub mod Clean
pub mod Object
pub mod Fetch
pub mod Transaction
pub mod Exec
pub mod Close
pub mod Import
pub mod Command
pub mod Lifecycle
pub mod Incrblob
pub mod Tests
pub mod Statement
