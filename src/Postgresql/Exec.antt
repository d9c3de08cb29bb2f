-- ===== src/Postgresql/Exec.antt =====
-- dbi_Postgresql_Exec and the transactions of postgresql/generic/postgresql.c.
use tcl_dbi.Base.{
  ℕ, Bool, true, false, Option, none, some, List, [], ◌∷◌, map, if◌then◌else◌, length,
}
use mathlib.Core.Option
use tcl_dbi.Memory.{Bytes, codes}
use tcl_dbi.Params.{Query, wrong_number, fault, run, postgresql_query}
use tcl_dbi.Tcl.{Tcl}
use tcl_dbi.Postgresql.Session.{
  Host, Reply, nothing, command, tuples, refused, Result, Table, Session, ran, cleared, Element,
  default_null, given, Item, to_result,
}

pub data Failure : Type 0 where
  not_open wrong_count database_error : Failure

-- TCL_OK with no result, with the number of rows, or with the lines; TCL_ERROR.
pub data Answer (Obj : Type 0) : Type 0 where
  done : Answer Obj
  counted : Bytes → Answer Obj
  lines : List (Item Obj) → Answer Obj
  failed : Failure → Answer Obj

-- PQclear
abbrev pub clear : ℕ → Session → Session
clear n s = record s { calls = cleared n ∷ s.calls }

abbrev pub clear_pending : Option Result → Session → Session
clear_pending none s = s
clear_pending (some r) s = clear r.number s

-- The result is left for fetch in place of the one before, or cleared.
unfoldable pub keep : Bool → Result → Session → Session
keep true r s = record (clear_pending s.res s) { res = some r; respos = none }
keep false r s = record (clear r.number s) { res = none; respos = none }

abbrev pub empty_table : Table
empty_table = record { names = []; types = []; rows = [] }

module _ ⦃tcl : Tcl⦄ ⦃host : Host⦄ where
  open tcl use {Obj, string}
  open host use {reply}

  abbrev pub null_element : Option Obj → Element Obj
  null_element none = default_null
  null_element (some o) = given o

  -- By the status of the result that the call at place `n` gave.
  unfoldable pub by_reply :
      Bool → Bool → Option Obj → Reply → ℕ → Session → Option (Answer Obj × Session)
  unfolding keep to_result
  by_reply usefetch flat nv nothing n s = some (failed database_error, s)
  by_reply usefetch flat nv refused n s = some (failed database_error, clear n s)
  by_reply usefetch flat nv (command count) n s =
      some (counted count, keep usefetch (record { number = n; table = empty_table }) s)
  by_reply true flat nv (tuples t) n s = some (done, keep true (record { number = n; table = t }) s)
  by_reply false flat nv (tuples t) n s = elim (to_result flat (null_element nv) t.types t.rows) [
    | none ↦ none
    | some items ↦ some (lines items, keep false (record { number = n; table = t }) s)
  ]

  unfoldable pub run_query :
      Bool → Bool → Option Obj → Query → Session → Option (Answer Obj × Session)
  unfolding by_reply
  run_query usefetch flat nv wrong_number s = some (failed wrong_count, s)
  run_query usefetch flat nv fault s = none
  run_query usefetch flat nv (run sql l) s =
      by_reply usefetch flat nv (reply s.calls sql) (length s.calls)
        (record s { calls = ran sql ∷ s.calls })

  -- `junk` fills the buffer for the values.
  unfoldable pub exec :
      ℕ → Bool → Bool → Bool → Obj → Option Obj → List Obj → Session → Option (Answer Obj × Session)
  unfolding run_query postgresql_query
  exec junk open? usefetch flat cmd nv objv s =
      if open?
      then run_query usefetch flat nv
          (postgresql_query junk (string cmd) (Option.map string nv) (map string objv)) s
      else some (failed not_open, s)

-- dbi_Postgresql_Transaction_Start, dbi_Postgresql_Transaction_Commit and
-- dbi_Postgresql_Transaction_Rollback: Exec with -flat on an object that Tcl_NewStringObj makes.
module _ ⦃tcl : Tcl⦄ ⦃host : Host⦄ (junk : ℕ) (open? : Bool) (new_string : Bytes → tcl.Obj) where
  unfoldable pub transaction_start : Session → Option (Answer tcl.Obj × Session)
  unfolding exec
  transaction_start = exec junk open? false true (new_string (codes "begin")) none []

  unfoldable pub transaction_commit : Session → Option (Answer tcl.Obj × Session)
  unfolding exec
  transaction_commit = exec junk open? false true (new_string (codes "commit")) none []

  unfoldable pub transaction_rollback : Session → Option (Answer tcl.Obj × Session)
  unfolding exec
  transaction_rollback = exec junk open? false true (new_string (codes "rollback")) none []
