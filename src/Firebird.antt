-- ===== src/Firebird.antt =====
-- The backend firebird/generic/firebird.c.
pub mod Split
