-- ===== src/Mysql.antt =====
-- The backend mysql/generic/mysql.c.
pub mod Quotes
pub mod Exec
pub mod Rows
pub mod Fetch
