-- ===== src/Sqlite3/Exec/Main.antt =====
-- The loop of dbi_Sqlite3_Exec over the statements, and what follows it.
use tcl_dbi.Base.{
  ℕ, zero, suc, Bool, true, false, Option, none, some, List, [], ◌∷◌, ◌&&◌, ◌||◌, if◌then◌else◌,
  ltb, length, take, drop, map,
}
use mathlib.Core.Option
use tcl_dbi.Base.Int.{pos}
use tcl_dbi.Base.State.{pure, ◌>>=◌, ◌>>◌}
use tcl_dbi.Memory.{Bytes, bytes_eq, codes}
use tcl_dbi.Sqlite3.Host.{Host, Stmt, StepCode, row, done, failure, misuse}
use tcl_dbi.Sqlite3.Session.{find, reset_and_clear, clear_result}
use tcl_dbi.Sqlite3.Row.{unquoted}
use tcl_dbi.Sqlite3.Object.Common.{bind_each, run_step}
use tcl_dbi.Sqlite3.Transaction.{transaction_start, transaction_commit}
use tcl_dbi.Sqlite3.Exec.{
  E, ExecError, not_open, preparing_statement, only_one_command, wrong_number_of_arguments,
  transaction_refused, running_statement, commit_failed, executing_command, reading_rows, Executed,
  ok, failed, fault, endless, Entry, no_entry, fresh, existing, Request, Run, Round, over, again,
  last, Rows, rows, stopped, null_row, unending, First, first_refused, first_endless, first_found,
  Ahead, ahead_endless, ahead, exec_error_label, prepare_first, look_ahead, fetch_rows,
}

module _ ⦃host : Host⦄ where
  open host use {
    Obj, string, new_string, new_int, new_list, step_result, parameter_count, changes, column_names,
  }

  abbrev pub fail_round : Request → Run Obj → ExecError → E (Round Obj)
  fail_round q r e = exec_error_label q r e >>= λ o. pure (over o)

  -- One stage of a round after the other, as long as the round goes on.
  abbrev pub continue_with : Round Obj → (Run Obj → E (Round Obj)) → E (Round Obj)
  continue_with (over o) k = pure (over o)
  continue_with (again r) k = k r
  continue_with (last code r) k = pure (last code r)

  abbrev pub seen : Run Obj → Ahead → E (Round Obj)
  seen r ahead_endless = pure (over endless)
  seen r (ahead stmt2 rest refused_ multi) = pure (
      again (record r {
        stmt2 = stmt2;
        nextsql2 = rest;
        error2 = refused_;
        multisql = r.multisql || multi;
      }))

  abbrev pub is_empty : Bytes → Bool
  is_empty [] = true
  is_empty (c ∷ cs) = false

  unfoldable pub see_next : Request → Run Obj → E (Round Obj)
  see_next q r =
      if is_empty r.nextsql then pure (again r) else look_ahead q.fuel r.nextsql >>= seen r

  abbrev pub set_entry : Entry → Request → Run Obj → E (Round Obj)
  set_entry fresh q r s =
      (again (record r { entry = no_entry }), record s { cache = (q.cmd, r.stmt) ∷ s.cache })
  set_entry _ q r s = (again r, s)

  unfoldable pub store_entry : Request → Run Obj → E (Round Obj)
  store_entry q r =
      if q.cache
      then if r.multisql then fail_round q r only_one_command else set_entry r.entry q r
      else pure (again r)

  abbrev pub begun : Request → Run Obj → Option Bytes → E (Round Obj)
  begun q r none = pure (again (record r { toclose = true; first = false }))
  begun q r (some message) =
      if bytes_eq (codes "cannot start a transaction within a transaction") message
      then pure (again (record r { first = false }))
      else fail_round q r transaction_refused

  unfoldable pub begin : Request → Run Obj → E (Round Obj)
  unfolding transaction_start
  begin q r =
      if r.first && r.multisql
      then transaction_start >>= begun q r
      else pure (again (record r { first = false }))

  unfoldable pub bind_arguments : Request → Run Obj → E (Round Obj)
  bind_arguments q r s =
      let numargs = parameter_count s.calls r.stmt in
      if ltb (length r.objv) numargs
      then fail_round q r wrong_number_of_arguments s
      else (bind_each r.stmt 1 q.null (take numargs r.objv)
            >> pure (again (record r { objv = drop numargs r.objv })))
          s

  abbrev pub is_last : Stmt → Bool → Bool
  is_last none false = true
  is_last _ _ = false

  abbrev pub ran : Request → Run Obj → StepCode → E (Round Obj)
  ran q r failure = fail_round q r running_statement
  ran q r misuse = fail_round q r running_statement
  ran q r code =
      if is_last r.stmt2 r.error2
      then pure (last code r)
      else pure (again (record r { stmt = r.stmt2; nextsql = r.nextsql2; error = r.error2 }))

  unfoldable pub run_statement : Request → Run Obj → E (Round Obj)
  run_statement q r = run_step r.stmt >>= ran q r

  unfoldable pub round : Request → Run Obj → E (Round Obj)
  unfolding see_next store_entry begin bind_arguments run_statement
  round q r =
      if r.error
      then fail_round q r preparing_statement
      else see_next q r >>= λ x. continue_with x (store_entry q) >>= λ x.
          continue_with x (begin q) >>= λ x.
          continue_with x (bind_arguments q) >>= λ x. continue_with x (run_statement q)

  abbrev pub with_rows : Request → Run Obj → Rows Obj → E (Executed Obj)
  with_rows q r (rows lines) = clear_result >> pure (ok (some (new_list lines)))
  with_rows q r stopped = exec_error_label q r reading_rows
  with_rows q r null_row = pure fault
  with_rows q r unending = pure endless

  -- `dbdata->stmt = stmt; dbdata->cached = cache;`
  abbrev pub keep : Request → Run Obj → E (Unit {0})
  keep q r s = (tt, record s { own = record s.own { stmt = r.stmt; cached = q.cache } })

  -- dbi_Sqlite3_getcolnames
  abbrev pub get_column_names : Run Obj → E (Unit {0})
  get_column_names r s =
      let names = map unquoted (column_names s.calls r.stmt) in
      (
        tt,
        record s {
          own = record s.own {
            resultfields = some names;
            nfields = some (length names);
            tuple = none;
            ntuples = none;
          };
        },
      )

  abbrev is_done : StepCode → Bool
  is_done done = true
  is_done _ = false

  -- no columns: the number of rows changed
  abbrev pub no_rows : StepCode → E (Executed Obj)
  no_rows done s =
      let changed = new_int (pos (changes s.calls)) in
      (clear_result >> pure (ok (some changed))) (record s { own = record s.own { tuple = none } })
  no_rows code s = (clear_result >> pure (ok none)) s

  abbrev pub with_columns : Request → StepCode → Run Obj → List Bytes → E (Executed Obj)
  with_columns q code r [] = no_rows code
  with_columns q code r (_ ∷ _) = fetch_rows q.fuel q.flat r.stmt code [] >>= with_rows q r

  unfoldable pub report : Request → StepCode → Run Obj → E (Executed Obj)
  report q code r s =
      if q.use_fetch
      then (keep q r >> get_column_names r >> pure (ok none)) s
      else (keep q r >> with_columns q code r (column_names s.calls r.stmt)) s

  unfoldable pub by_code : Request → StepCode → Run Obj → E (Executed Obj)
  unfolding report
  by_code q row r = report q row r
  by_code q done r = report q done r
  by_code q code r = exec_error_label q r executing_command

  abbrev pub committed : Request → StepCode → Run Obj → Bool → E (Executed Obj)
  committed q code r true = by_code q code r
  committed q code r false = clear_result >> exec_error_label q r commit_failed

  unfoldable pub after_loop : Request → StepCode → Run Obj → E (Executed Obj)
  unfolding by_code transaction_commit
  after_loop q code r =
      if r.toclose then transaction_commit >>= committed q code r else by_code q code r

  abbrev pub next_round : Request → (Run Obj → E (Executed Obj)) → Round Obj → E (Executed Obj)
  next_round q next (over o) = pure o
  next_round q next (again r) = next r
  next_round q next (last code r) = after_loop q code r

  unfoldable pub loop : ℕ → Request → Run Obj → E (Executed Obj)
  unfolding round after_loop
  loop zero q r = pure endless
  loop (suc f) q r = round q r >>= next_round q (loop f q)

  abbrev pub start : Stmt → Bytes → Bool → Entry → List Obj → Run Obj
  start stmt rest error entry objv = record {
    stmt = stmt;
    nextsql = rest;
    error = error;
    stmt2 = none;
    nextsql2 = [];
    error2 = false;
    multisql = false;
    first = true;
    toclose = false;
    entry = entry;
    objv = objv;
  }

  unfoldable pub from_first : Request → Entry → List Obj → First → E (Executed Obj)
  unfolding loop
  from_first q entry objv first_endless = pure endless
  from_first q entry objv first_refused = loop q.fuel q (start none [] true entry objv)
  from_first q entry objv (first_found n rest) =
      loop q.fuel q (start (some n) rest false entry objv)

  unfoldable pub first_statement : Request → Entry → List Obj → Bytes → E (Executed Obj)
  unfolding from_first
  first_statement q entry objv sql = prepare_first q.fuel sql >>= from_first q entry objv

  abbrev pub from_cache : Request → List Obj → Option Stmt → E (Executed Obj)
  from_cache q objv none = first_statement q fresh objv q.cmd
  from_cache q objv (some none) = reset_and_clear none >> first_statement q existing objv []
  from_cache q objv (some (some n)) =
      reset_and_clear (some n) >> from_first q existing objv (first_found n [])

  abbrev pub null_of : Request → Option Obj → Obj → Obj
  null_of q none default = default
  null_of q (some null) default = if q.use_fetch then default else null

  unfoldable pub exec_open : Request → Option Obj → List Obj → E (Executed Obj)
  unfolding first_statement
  exec_open q nullvalue objv s =
      let cleared = (clear_result s).1 in
      let s' = record cleared { nullvalue = some (null_of q nullvalue s.defnullvalue) } in
      if q.cache
      then from_cache q objv (find q.cmd s'.cache) s'
      else first_statement q no_entry objv q.cmd s'

  -- dbi_Sqlite3_Exec; `is_open` is `dbdata->db != NULL`
  unfoldable pub exec : Bool → Request → Option Obj → List Obj → E (Executed Obj)
  unfolding exec_open
  exec is_open q nullvalue objv =
      if is_open
      then exec_open (record q { null = Option.map string nullvalue }) nullvalue objv
      else pure (failed not_open)
