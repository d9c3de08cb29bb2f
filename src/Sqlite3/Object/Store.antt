-- ===== src/Sqlite3/Object/Store.antt =====
-- insert and set of sqlite3/generic/sqlite.c, with every call of SQLite on the way.
use tcl_dbi.Base.{
  ℕ, Bool, false, Option, none, some, List, [], ◌∷◌, ◌++◌, ◌==◌, ◌||◌, if◌then◌else◌, map, length,
}
use mathlib.Core.Option
use tcl_dbi.Base.State.{pure, ◌>>=◌, ◌>>◌}
use tcl_dbi.Memory.{bytes_eq, Bytes, codes}
use tcl_dbi.Sqlite3.Host.{Host, History, Stmt}
use tcl_dbi.Sqlite3.Session.{release, clear_result}
use tcl_dbi.Sqlite3.Statement.{set_sql, insert_sql}
use tcl_dbi.Sqlite3.Object.Common.{
  not_a_list, set_data, step_failed, ok, to_int32, at_even, at_odd, is_odd, is_okay, M, spread,
  split_object, with_fields, with_parts, with_sql, run_step, fail, bind_each,
}

module _ ⦃host : Host⦄ where
  open host use {Obj, string, append_element, new_int, changes, last_insert_rowid}

  -- `fid`, the id among the fields. The source takes `objv[1]` whichever name is `id`.
  abbrev pub has_id : List Obj → Bool
  has_id [] = false
  has_id (f ∷ fs) = bytes_eq (string f) (codes "id") || has_id fs

  abbrev pub own_id : List Obj → Option Obj
  own_id [] = none
  own_id (f ∷ []) = none
  own_id (f ∷ v ∷ rest) = if has_id (at_even (f ∷ v ∷ rest)) then some v else none

  -- `if (id != NULL) {fid = id;}`, and the new row's id where there is none
  unfoldable pub result_id : Option Obj → List Obj → History → Obj
  result_id (some id) objv calls = id
  result_id none objv calls = elim (own_id objv) [
    | some v ↦ v
    | none ↦ new_int (to_int32 (last_insert_rowid calls))
  ]

  unfoldable pub insert_result : Obj → Option Obj → List Obj → Stmt → M
  unfolding result_id
  insert_result table id objv stmt s = elim (append_element table (result_id id objv s.calls)) [
    | none ↦ fail stmt not_a_list s
    | some result ↦ (release stmt >> clear_result >> pure (ok (some result))) s
  ]

  abbrev pub optional : Option Obj → List Obj
  optional none = []
  optional (some o) = o ∷ []

  insert_run : Obj → Option Obj → Option Bytes → List Obj → Stmt → M
  unfolding insert_result
  insert_run table id null objv stmt =
      bind_each stmt 1 null (at_odd objv ++ optional id)
      >> (run_step stmt >>= λ code.
          if is_okay code then insert_result table id objv stmt else fail stmt step_failed)

  unfoldable pub insert_names : ℕ → Obj → Option Obj → Option Bytes → List Obj → List Bytes → M
  unfolding insert_run
  insert_names junk table id null objv [] = fail none set_data
  insert_names junk table id null objv (f ∷ fs) =
      if is_odd (length objv)
      then fail none set_data
      else with_sql (insert_run table id null objv)
          (insert_sql junk (string table) (Option.map string id) f fs)

  -- dbi_Sqlite3_Insert
  unfoldable pub insert : ℕ → Obj → Option Obj → Option Obj → List Obj → M
  unfolding insert_names
  insert junk table id nullvalue objv =
      with_fields
        (λ fields.
          insert_names junk table id (Option.map string nullvalue) fields
            (map string (at_even fields)))
        (spread objv)

  -- After the update: where no row was changed, the object is inserted, with no null value.
  unfoldable pub set_or_insert : ℕ → Obj → Obj → List Obj → Stmt → M
  set_or_insert junk table id objv stmt s =
      let changed = changes s.calls == 1 in
      (release stmt
          >> clear_result
          >> (if changed then pure (ok none) else insert junk table (some id) none objv))
        s

  set_run : ℕ → Obj → Obj → Option Bytes → List Obj → Stmt → M
  unfolding set_or_insert
  set_run junk table id null objv stmt =
      bind_each stmt 1 null (at_odd objv ++ id ∷ [])
      >> (run_step stmt >>= λ code.
          if is_okay code then set_or_insert junk table id objv stmt else fail stmt step_failed)

  unfoldable pub set_fields : ℕ → Obj → Option Bytes → List Obj → List Bytes → M
  unfolding set_run
  set_fields junk object null objv [] = pure (ok none)
  set_fields junk object null objv (f ∷ fs) =
      if is_odd (length objv)
      then fail none set_data
      else with_parts
          (λ table id.
            with_sql (set_run junk table id null objv)
              (set_sql junk (string table) (string id) f fs))
          (split_object object)

  -- dbi_Sqlite3_Set
  unfoldable pub set : ℕ → Obj → Option Obj → List Obj → M
  unfolding set_fields
  set junk object nullvalue objv =
      with_fields
        (λ fields.
          set_fields junk object (Option.map string nullvalue) fields (map string (at_even fields)))
        (spread objv)
