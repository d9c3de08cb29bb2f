-- ===== src/Sqlite3/Close.antt =====
-- dbi_Sqlite3_Clearcache of sqlite3/generic/sqlite.c, and dbi_Sqlite3_Close for an object that is no
-- clone and has none.
pub mod Finalized
pub mod Tests
use tcl_dbi.Base.{
  ℕ, Bool, true, false, Option, none, some, List, [], ◌∷◌, ◌==◌, ◌&&◌, if◌then◌else◌,
}
use tcl_dbi.Base.State.{State, ◌>>◌}
use tcl_dbi.Sqlite3.Host.{Stmt, Call, History, finalize, close}
use tcl_dbi.Sqlite3.Session.{Session, Pending, Cache, call, clear_result}

abbrev pub is_stmt : Stmt → ℕ → Bool
is_stmt none n = false
is_stmt (some m) n = m == n

-- `dbdata->cached && dbdata->stmt == stmt`: the statement is the pending one, and stays.
abbrev pub in_use : Pending → ℕ → Bool
in_use p n = p.cached && is_stmt p.stmt n

clear_entry : Pending → Stmt → History → History
clear_entry p none calls = calls
clear_entry p (some n) calls = if in_use p n then calls else finalize (some n) ∷ calls

unfoldable pub clear_entries : Pending → Cache → History → History
unfolding clear_entry
clear_entries p [] calls = calls
clear_entries p ((sql, stmt) ∷ rest) calls = clear_entries p rest (clear_entry p stmt calls)

-- dbi_Sqlite3_Clearcache
unfoldable pub clear_cache : {Obj : Type 0} → State (Session Obj) (Unit {0})
unfolding clear_entries
clear_cache s = (tt, record s { calls = clear_entries s.own s.cache s.calls; cache = [] })

-- dbi_Sqlite3_Close
unfoldable pub close_alone : {Obj : Type 0} → State (Session Obj) (Unit {0})
unfolding clear_cache
close_alone = clear_cache >> clear_result >> call close
