-- ===== src/Sqlite3/Exec.antt =====
-- dbi_Sqlite3_Exec of sqlite3/generic/sqlite.c: the statements of a text, one after the other, with
-- the automatic transaction, the cache and the result. Loops that SQLite's answers may keep going
-- take fuel, and `endless` is the answer where it runs out.
pub mod Closed
pub mod Guarded
pub mod Ended
pub mod Broken
pub mod Main
pub mod Tests
pub mod Single
pub mod Endless
use tcl_dbi.Base.{
  ℕ, zero, suc, ◌+◌, Bool, true, false, Option, none, some, List, [], ◌∷◌, ◌++◌, ◌||◌,
  if◌then◌else◌, ltb, length, take, drop,
}
use mathlib.Core.Option
use tcl_dbi.Base.Int.{pos}
use tcl_dbi.Base.State.{State, pure, ◌>>=◌, ◌>>◌}
use tcl_dbi.Memory.{Bytes, bytes_eq, codes}
use tcl_dbi.Sqlite3.Host.{
  Host, Stmt, StepCode, row, done, Prepared, refused, ready, prepare, finalize, step,
}
use tcl_dbi.Sqlite3.Session.{Session, Cache, call, find, release, reset_and_clear, clear_result}
use tcl_dbi.Sqlite3.Row.{get_row, unquoted}
use tcl_dbi.Sqlite3.Object.Common.{bind_each, run_step}
use tcl_dbi.Sqlite3.Transaction.{transaction_start, transaction_commit, transaction_rollback}

pub data ExecError : Type 0 where
  not_open preparing_statement only_one_command wrong_number_of_arguments : ExecError
  transaction_refused running_statement commit_failed executing_command reading_rows : ExecError

-- TCL_OK with the result, or none set; TCL_ERROR; a use of NULL; and a loop that does not end.
pub data Executed (A : Type 0) : Type 0 where
  ok : Option A → Executed A
  failed : ExecError → Executed A
  fault endless : Executed A

-- `entry` with `new`: none, one that still has no statement, or one that was in the cache before.
pub data Entry : Type 0 where
  no_entry fresh existing : Entry

-- The arguments, with the fuel of each loop.
pub record Request : Type 0 where
  pub use_fetch : Bool
  pub flat : Bool
  pub cache : Bool
  pub cmd : Bytes
  pub null : Option Bytes
  pub fuel : ℕ

-- The local variables of the loop; `error` tells whether the last prepare failed.
pub record Run (Obj : Type 0) : Type 0 where
  pub stmt : Stmt
  pub nextsql : Bytes
  pub error : Bool
  pub stmt2 : Stmt
  pub nextsql2 : Bytes
  pub error2 : Bool
  pub multisql : Bool
  pub first : Bool
  pub toclose : Bool
  pub entry : Entry
  pub objv : List Obj

-- How a round of the loop ends.
pub data Round (Obj : Type 0) : Type 0 where
  over : Executed Obj → Round Obj
  again : Run Obj → Round Obj
  last : StepCode → Run Obj → Round Obj

pub data Rows (Obj : Type 0) : Type 0 where
  rows : List Obj → Rows Obj
  stopped null_row unending : Rows Obj

pub data First : Type 0 where
  first_refused first_endless : First
  first_found : ℕ → Bytes → First

pub data Ahead : Type 0 where
  ahead_endless : Ahead
  ahead : Stmt → Bytes → Bool → Bool → Ahead

abbrev pub without : Bytes → Cache → Cache
without sql [] = []
without sql ((t, stmt) ∷ rest) = if bytes_eq t sql then rest else (t, stmt) ∷ without sql rest

module _ ⦃host : Host⦄ where
  open host use {
    Obj, string, new_string, new_int, new_list, prepare_result, step_result, parameter_count,
    changes, column_names, column_values,
  }

  abbrev pub E : Type 0 → Type 0
  E A = State (Session Obj) A

  abbrev pub finalize_if : Stmt → E (Unit {0})
  finalize_if none = pure tt
  finalize_if (some n) = call (finalize (some n))

  abbrev pub drop_entry : Entry → Bytes → E (Unit {0})
  drop_entry existing sql s = (tt, record s { cache = without sql s.cache })
  drop_entry _ sql s = (tt, s)

  abbrev pub rollback_if : Bool → E (Unit {0})
  rollback_if true s = (tt, (transaction_rollback s).1)
  rollback_if false s = (tt, s)

  -- the label `error:`
  unfoldable pub exec_error_label : Request → Run Obj → ExecError → E (Executed Obj)
  unfolding transaction_rollback
  exec_error_label q r e = do
    rollback_if r.toclose
    drop_entry r.entry q.cmd
    if q.cache then release r.stmt else finalize_if r.stmt
    finalize_if r.stmt2
    clear_result
    pure (failed e)

  -- sqlite3_prepare_v2
  abbrev pub try_prepare : Bytes → E Prepared
  try_prepare sql s = (prepare_result s.calls sql, (call (prepare sql) s).1)

  abbrev pub first_of : (Bytes → E First) → Prepared → E First
  first_of next (refused e) = pure first_refused
  first_of next (ready (some n) rest) = pure (first_found n rest)
  first_of next (ready none rest) = next rest

  -- `while (stmt == NULL)`
  unfoldable pub prepare_first : ℕ → Bytes → E First
  prepare_first zero sql = pure first_endless
  prepare_first (suc f) sql = try_prepare sql >>= first_of (prepare_first f)

  abbrev pub ahead_of : Bytes → E Ahead → Prepared → E Ahead
  ahead_of sql next (refused e) = pure (ahead none sql true true)
  ahead_of sql next (ready (some n) rest) = pure (ahead (some n) rest false true)
  ahead_of sql next (ready none []) = pure (ahead none [] false false)
  ahead_of sql next (ready none (c ∷ rest)) = next

  -- The look at the next statement. Each round starts at the same place.
  unfoldable pub look_ahead : ℕ → Bytes → E Ahead
  look_ahead zero sql = pure ahead_endless
  look_ahead (suc f) sql = try_prepare sql >>= ahead_of sql (look_ahead f sql)

  abbrev pub add_row : Bool → List Obj → List Obj → List Obj
  add_row flat acc line = acc ++ (if flat then line else new_list line ∷ [])

  abbrev pub rows_of : (List Obj → E (Rows Obj)) → Option (List Obj) → E (Rows Obj)
  rows_of next none = pure null_row
  rows_of next (some line) = next line

  -- The rows from the current one on; `code` is the answer of the last step.
  unfoldable pub fetch_rows : ℕ → Bool → Stmt → StepCode → List Obj → E (Rows Obj)
  fetch_rows f flat stmt done acc s = (rows acc, s)
  fetch_rows zero flat stmt row acc s = (unending, s)
  fetch_rows (suc f) flat stmt row acc s =
      rows_of
        (λ line. run_step stmt >>= λ code. fetch_rows f flat stmt code (add_row flat acc line))
        (get_row s.nullvalue (column_values s.calls stmt)) s
  fetch_rows f flat stmt code acc s = (stopped, s)
