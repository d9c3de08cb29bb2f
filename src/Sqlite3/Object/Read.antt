-- ===== src/Sqlite3/Object/Read.antt =====
-- get of sqlite3/generic/sqlite.c, with every call of SQLite on the way.
use tcl_dbi.Base.{ℕ, none, some, List, [], ◌∷◌, map}
use tcl_dbi.Base.State.{pure, ◌>>=◌, ◌>>◌}
use tcl_dbi.Sqlite3.Host.{Host, Stmt, StepCode, row, done}
use tcl_dbi.Sqlite3.Session.{Session, release, clear_result, bind_arg}
use tcl_dbi.Sqlite3.Row.{get_row, named_fields}
use tcl_dbi.Sqlite3.Statement.{get_sql}
use tcl_dbi.Sqlite3.Object.Common.{
  step_failed, object_not_found, Outcome, ok, fault, M, spread, split_object, with_fields,
  with_parts, with_sql, run_step, fail,
}

module _ ⦃host : Host⦄ where
  open host use {Obj, string, new_list, column_names, column_values}

  -- With one field named, the result is its value; with more, the list of their values.
  abbrev pub row_value : List Obj → List Obj → Outcome Obj
  row_value [] [] = fault
  row_value [] (v ∷ vs) = ok (some v)
  row_value (f ∷ fs) values = ok (some (new_list values))

  -- The row that get found, as its result.
  abbrev pub row_result : List Obj → Stmt → Session Obj → Outcome Obj
  row_result [] stmt s =
      ok (some (new_list (named_fields (column_names s.calls stmt) (column_values s.calls stmt))))
  row_result (f ∷ fs) stmt s = elim (get_row s.nullvalue (column_values s.calls stmt)) [
    | none ↦ fault
    | some values ↦ row_value fs values
  ]

  unfoldable pub get_found : Obj → List Obj → Stmt → StepCode → M
  get_found object fields stmt row s =
      (release stmt >> clear_result >> pure (row_result fields stmt s)) s
  get_found object fields stmt done s = fail stmt (object_not_found (string object)) s
  get_found object fields stmt code s = fail stmt step_failed s

  get_run : Obj → Obj → List Obj → Stmt → M
  unfolding get_found
  get_run object id fields stmt =
      bind_arg stmt 1 id none >> (run_step stmt >>= get_found object fields stmt)

  get_fields : ℕ → Obj → List Obj → M
  unfolding get_run
  get_fields junk object fields =
      with_parts
        (λ table id.
          with_sql (get_run object id fields)
            (get_sql junk (string table) (string id) (map string fields)))
        (split_object object)

  -- dbi_Sqlite3_Get
  unfoldable pub get : ℕ → Obj → List Obj → M
  unfolding get_fields
  get junk object objv = with_fields (get_fields junk object) (spread objv)
