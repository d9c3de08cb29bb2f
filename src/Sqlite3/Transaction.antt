-- ===== src/Sqlite3/Transaction.antt =====
-- dbi_Sqlite3_Transaction_Start, dbi_Sqlite3_Transaction_Commit and dbi_Sqlite3_Transaction_Rollback
-- of sqlite3/generic/sqlite.c.
use tcl_dbi.Base.{Bool, true, Option, none, some}
use tcl_dbi.Base.State.{State}
use tcl_dbi.Memory.{Bytes, bytes_eq, codes}
use tcl_dbi.Sqlite3.Host.{Host, exec}
use tcl_dbi.Sqlite3.Session.{Session, call}

abbrev pub begin_text : Bytes
begin_text = codes "begin transaction _dbi"

abbrev pub commit_text : Bytes
commit_text = codes "commit transaction _dbi"

abbrev pub rollback_text : Bytes
rollback_text = codes "rollback transaction _dbi"

-- TCL_OK without an error, and with the one error that is let through
abbrev pub lets_through : Bytes → Option Bytes → Bool
lets_through text none = true
lets_through text (some message) = bytes_eq text message

module _ ⦃host : Host⦄ where
  open host use {Obj, exec_error}

  -- the error message, if there is one
  abbrev run_text : Bytes → State (Session Obj) (Option Bytes)
  run_text sql s = (exec_error s.calls sql, (call (exec sql) s).1)

  unfoldable pub transaction_start : State (Session Obj) (Option Bytes)
  transaction_start = run_text begin_text

  unfoldable pub transaction_commit : State (Session Obj) Bool
  transaction_commit s =
      let ran = run_text commit_text s in
      (lets_through (codes "cannot commit - no transaction is active") ran.0, ran.1)

  unfoldable pub transaction_rollback : State (Session Obj) Bool
  transaction_rollback s =
      let ran = run_text rollback_text s in
      (lets_through (codes "cannot rollback - no transaction is active") ran.0, ran.1)
