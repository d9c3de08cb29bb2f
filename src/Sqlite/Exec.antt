-- ===== src/Sqlite/Exec.antt =====
-- dbi_Sqlite_Exec and the transactions of sqlite/generic/sqlite.c.
pub mod Bracket
use tcl_dbi.Base.{ℕ, Bool, true, false, Option, none, some, List, [], ◌∷◌, map, if◌then◌else◌}
use mathlib.Core.Option
use tcl_dbi.Memory.{Bytes, codes}
use tcl_dbi.Params.{Query, wrong_number, fault, run, sqlite_query}
use tcl_dbi.Tcl.{Tcl}
use tcl_dbi.Sqlite.Session.{
  Host, History, Code, okay, constraint, other, Element, default_null, given, Item, Session, M,
  ◌>>=◌, clear_result, run_filling, run_text, if_autocommit, begin_exec, end_exec, rollback_exec,
}

pub data Failure : Type 0 where
  not_open wrong_count violation database_error : Failure
  bad_data bad_object not_a_list no_fields not_found : Failure

-- TCL_OK with the result that is set, or none; or TCL_ERROR.
pub data Answer (Obj : Type 0) : Type 0 where
  ok : Option (List (Item Obj)) → Answer Obj
  failed : Failure → Answer Obj

module _ ⦃tcl : Tcl⦄ ⦃host : Host⦄ where
  open tcl use {Obj, string}

  -- The error label, behind the rollback.
  abbrev rolled_back : Failure → M Obj (Answer Obj)
  rolled_back e s = some (failed e, clear_result (if_autocommit rollback_exec s))

  -- The result is handed over, or left for fetch.
  unfoldable pub deliver : Bool → M Obj (Answer Obj)
  unfolding clear_result
  deliver true s = some (ok none, record s { tuple = none })
  deliver false s = elim s.result [
    | none ↦ some (ok none, s)
    | some items ↦ some (ok (some items), clear_result s)
  ]

  unfoldable pub by_code : Bool → Code → M Obj (Answer Obj)
  unfolding deliver clear_result
  by_code usefetch okay s = deliver usefetch (if_autocommit end_exec s)
  by_code usefetch constraint s = rolled_back violation s
  by_code usefetch (other n) s = rolled_back database_error s

  abbrev pub null_element : Bool → Option Obj → Element Obj
  null_element true nullvalue = default_null
  null_element false none = default_null
  null_element false (some o) = given o

  unfoldable pub run_query : Bool → Option Obj → Query → M Obj (Answer Obj)
  unfolding clear_result run_filling by_code
  run_query usefetch nullvalue wrong_number s = some (failed wrong_count, s)
  run_query usefetch nullvalue fault s = none
  run_query usefetch nullvalue (run sql n) s =
      let s' = record (clear_result s) {
        nullvalue = some (null_element usefetch nullvalue);
        result = some [];
      } in
      (run_filling sql >>= by_code usefetch) (if_autocommit begin_exec s')

  abbrev pub flat_flag : Bool → Bool → Bool
  flat_flag true flat = false
  flat_flag false flat = flat

  -- `junk` fills the buffer for the values.
  unfoldable pub exec : ℕ → Bool → Bool → Bool → Obj → Option Obj → List Obj → M Obj (Answer Obj)
  unfolding run_query sqlite_query
  exec junk open? usefetch flat cmd nullvalue objv s =
      let s' = record s { resultflat = flat_flag usefetch flat } in
      if open?
      then run_query usefetch nullvalue
          (sqlite_query junk (string cmd) (Option.map string nullvalue) (map string objv)) s'
      else some (failed not_open, s')

-- dbi_Sqlite_Transaction_Start, dbi_Sqlite_Transaction_Commit and dbi_Sqlite_Transaction_Rollback:
-- whether they return TCL_OK.
abbrev is_okay : Code → Bool
is_okay okay = true
is_okay constraint = false
is_okay (other n) = false

module _ {Obj : Type 0} ⦃host : Host⦄ where
  unfoldable pub transaction_start : Session Obj → Bool × Session Obj
  transaction_start s =
      let sql = codes "begin transaction _dbi" in
      let s' = run_text sql s in
      if is_okay (host.code s.calls sql)
      then (true, record s' { intransaction = true })
      else (false, s')

  -- commit and rollback do nothing outside a transaction
  abbrev ending : Bytes → Session Obj → Bool × Session Obj
  ending sql s =
      let s' = run_text sql s in
      if s.intransaction
      then (if is_okay (host.code s.calls sql)
          then (true, record s' { intransaction = false })
          else (false, s'))
      else (true, s)

  unfoldable pub transaction_commit : Session Obj → Bool × Session Obj
  transaction_commit = ending (codes "commit transaction _dbi")

  unfoldable pub transaction_rollback : Session Obj → Bool × Session Obj
  transaction_rollback = ending (codes "rollback transaction _dbi")
