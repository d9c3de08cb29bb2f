-- ===== src/Sqlite3/Object/Remove.antt =====
-- delete and unset of sqlite3/generic/sqlite.c, with every call of SQLite on the way.
use tcl_dbi.Base.{ℕ, none, List, [], ◌∷◌, ◌==◌, if◌then◌else◌, map}
use tcl_dbi.Base.State.{pure, ◌>>=◌, ◌>>◌}
use tcl_dbi.Sqlite3.Host.{Host, Stmt}
use tcl_dbi.Sqlite3.Session.{release, clear_result, bind_arg}
use tcl_dbi.Sqlite3.Statement.{unset_sql, delete_sql}
use tcl_dbi.Sqlite3.Object.Common.{
  no_fields_to_unset, step_failed, object_not_found, ok, is_okay, M, spread, split_object,
  with_fields, with_parts, with_sql, run_step, fail,
}

module _ ⦃host : Host⦄ where
  open host use {Obj, string, changes}

  -- `if (changes != 1)`: the object is not there.
  abbrev pub one_changed : M → Stmt → Obj → M
  one_changed found stmt object s =
      (if changes s.calls == 1 then found else fail stmt (object_not_found (string object))) s

  delete_run : Obj → Obj → Stmt → M
  delete_run object id stmt =
      bind_arg stmt 1 id none
      >> (run_step stmt >>= λ code.
          if is_okay code
          then one_changed (clear_result >> release stmt >> pure (ok none)) stmt object
          else fail stmt step_failed)

  -- dbi_Sqlite3_Delete
  unfoldable pub delete : ℕ → Obj → M
  unfolding delete_run
  delete junk object =
      with_parts
        (λ table id. with_sql (delete_run object id) (delete_sql junk (string table) (string id)))
        (split_object object)

  unset_run : Obj → Obj → Stmt → M
  unset_run object id stmt =
      bind_arg stmt 1 id none
      >> (run_step stmt >>= λ code.
          if is_okay code
          then one_changed (release stmt >> pure (ok none)) stmt object
          else fail stmt step_failed)

  unfoldable pub unset_fields : ℕ → Obj → List Obj → M
  unfolding unset_run
  unset_fields junk object [] = fail none no_fields_to_unset
  unset_fields junk object (f ∷ fs) =
      with_parts
        (λ table id.
          with_sql (unset_run object id)
            (unset_sql junk (string table) (string id) (string f) (map string fs)))
        (split_object object)

  -- dbi_Sqlite3_Unset
  unfoldable pub unset : ℕ → Obj → List Obj → M
  unfolding unset_fields
  unset junk object objv = with_fields (unset_fields junk object) (spread objv)
