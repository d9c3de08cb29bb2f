-- ===== src/Sqlite3/Object/Clean.antt =====
-- Every handler leaves the statements clean: reset and with no parameter bound, on each of its paths.
use tcl_dbi.Base.{
  ℕ, ◌+◌, Option, none, some, List, [], ◌∷◌, ◌==◌, arith, length, ◌++◌, if◌then◌else◌, inl, inr,
  Bool-cases, Option-cases,
}
use tcl_dbi.Memory.{Bytes}
use tcl_dbi.Sqlite3.Host.{Host, Stmt, StepCode, row, done}
use tcl_dbi.Sqlite3.Session.{Session, Lookup, failed, got, prepare_cached, clear_result, release}
use tcl_dbi.Sqlite3.Clean.{Clean, CleanBut, clear_result-Clean, release-Clean, prepare_cached-Clean}
use tcl_dbi.Base.State.{pure, ◌>>◌, ◌>>=◌}
use tcl_dbi.Sqlite3.Object.Common.{
  spread, at_odd, Message, step_failed, object_not_found, preparing_statement, is_okay, not_a_list,
  no_fields_to_unset, ok, Outcome, set_data, is_odd, fail, with_fields, with_parts, with_sql,
  use_lookup, run_step, bind_each, Split, split_object, bad, parts, M,
}
use tcl_dbi.Sqlite3.Object.Remove.{one_changed, delete, unset, unset_fields}
use tcl_dbi.Sqlite3.Object.Read.{get, get_found, row_result}
use tcl_dbi.Sqlite3.Object.Store.{
  insert, insert_result, insert_names, optional, result_id, set, set_fields, set_or_insert,
}

module _ ⦃host : Host⦄ (n : ℕ) where
  open host use {Obj, string, changes, step_result, append_element}

  -- A step that leaves every clean statement clean.
  abbrev Keeps : M → Type 0
  Keeps m = (s : Session Obj) → Clean n s.calls → Clean n (m s).1.calls

  -- The end of a handler that uses `stmt`.
  abbrev Settles : Stmt → M → Type 0
  Settles stmt m = (s : Session Obj) → CleanBut stmt n s.calls → Clean n (m s).1.calls

  fail-Settles : (stmt : Stmt) (m : Message) → Settles stmt (fail stmt m)
  fail-Settles stmt m s h = clear_result-Clean n _ (release-Clean n s stmt h)

  fail-Keeps : (m : Message) → Keeps (fail none m)
  fail-Keeps m s h = fail-Settles none m s (λ _. h)

  bind_each-CleanBut :
      (stmt : Stmt) (j : ℕ) (null : Option Bytes) (os : List Obj) (s : Session Obj)
      → CleanBut stmt n s.calls
      → CleanBut stmt n (bind_each stmt j null os s).1.calls
  unfolding bind_each
  bind_each-CleanBut stmt j null [] s h = h
  bind_each-CleanBut stmt j null (o ∷ os) s h =
      bind_each-CleanBut stmt (j + 1) null os _ (ground arith)

  with_fields-Keeps :
      (next : List Obj → M) (fields : Option (List Obj))
      → ((os : List Obj) → Keeps (next os))
      → Keeps (with_fields next fields)
  unfolding with_fields
  with_fields-Keeps next none k s h = h
  with_fields-Keeps next (some fields) k s h = k fields s h

  with_parts-Keeps :
      (next : Obj → Obj → M) (x : Split Obj)
      → ((table id : Obj) → Keeps (next table id))
      → Keeps (with_parts next x)
  unfolding with_parts
  with_parts-Keeps next (bad m) k = fail-Keeps m
  with_parts-Keeps next (parts table id) k = k table id

  with_sql-Keeps :
      (next : Stmt → M) (sql : Option Bytes)
      → ((stmt : Stmt) → Settles stmt (next stmt))
      → Keeps (with_sql next sql)
  unfolding with_sql
  with_sql-Keeps next none k s h = h
  with_sql-Keeps next (some sql) k s h =
      after (prepare_cached sql s).0 _ (prepare_cached-Clean n sql s h)
    where
      after : (l : Lookup) → Keeps (use_lookup next l)
      after (failed e) t c = fail-Keeps preparing_statement t c
      after (got stmt) t c = k stmt t (λ _. c)

  one_changed-Settles :
      (stmt : Stmt) (object : Obj) (found : M)
      → Settles stmt found
      → Settles stmt (one_changed found stmt object)
  one_changed-Settles stmt object found k s h = elim (Bool-cases (changes s.calls == 1)) [
    | inl e ↦ rw e (k s h)
    | inr e ↦ rw e (fail-Settles stmt (object_not_found (string object)) s h)
  ]

  -- After the step: the test of its code.
  stepped-Settles :
      (stmt : Stmt) (found : M)
      → Settles stmt found
      → Settles stmt
          (run_step stmt >>= λ code. if is_okay code then found else fail stmt step_failed)
  stepped-Settles stmt found k s h = elim (Bool-cases (is_okay (step_result s.calls stmt))) [
    | inl e ↦ rw e (k _ (ground arith))
    | inr e ↦ rw e (fail-Settles stmt step_failed _ (ground arith))
  ]

  -- The three ways in which a handler ends well.
  clear-Settles :
      (stmt : Stmt) (o : Outcome Obj) → Settles stmt (release stmt >> clear_result >> pure o)
  clear-Settles stmt o s h = clear_result-Clean n _ (release-Clean n s stmt h)

  late-Settles :
      (stmt : Stmt) (o : Outcome Obj) → Settles stmt (clear_result >> release stmt >> pure o)
  late-Settles stmt o s h = release-Clean n _ stmt (λ e. clear_result-Clean n s (h e))

  pub delete-Clean : (junk : ℕ) (object : Obj) → Keeps (delete junk object)
  unfolding delete
  delete-Clean junk object = with_parts-Keeps _ (split_object object) λ table id.
      with_sql-Keeps _ _ λ stmt s h.
        stepped-Settles stmt _ (one_changed-Settles stmt object _ (late-Settles stmt (ok none))) _
          (ground arith)

  unset_fields-Keeps :
      (junk : ℕ) (object : Obj) (fields : List Obj) → Keeps (unset_fields junk object fields)
  unfolding unset_fields
  unset_fields-Keeps junk object [] = fail-Keeps no_fields_to_unset
  unset_fields-Keeps junk object (f ∷ fs) = with_parts-Keeps _ (split_object object) λ table id.
      with_sql-Keeps _ _ λ stmt s h.
        stepped-Settles stmt _ (one_changed-Settles stmt object _ (λ t k. release-Clean n t stmt k))
          _ (ground arith)

  pub unset-Clean : (junk : ℕ) (object : Obj) (objv : List Obj) → Keeps (unset junk object objv)
  unfolding unset
  unset-Clean junk object objv = with_fields-Keeps _ (spread objv) (unset_fields-Keeps junk object)

  get_found-Settles :
      (object : Obj) (fields : List Obj) (stmt : Stmt) (code : StepCode)
      → Settles stmt (get_found object fields stmt code)
  unfolding get_found
  get_found-Settles object fields stmt row s h = clear-Settles stmt (row_result fields stmt s) s h
  get_found-Settles object fields stmt done s h =
      fail-Settles stmt (object_not_found (string object)) s h
  get_found-Settles object fields stmt code s h = fail-Settles stmt step_failed s h

  pub get-Clean : (junk : ℕ) (object : Obj) (objv : List Obj) → Keeps (get junk object objv)
  unfolding get
  get-Clean junk object objv = with_fields-Keeps _ (spread objv) λ fields.
      with_parts-Keeps _ (split_object object) λ table id.
        with_sql-Keeps _ _ λ stmt s h. get_found-Settles object fields stmt _ _ (ground arith)

  insert_result-Settles :
      (table : Obj) (id : Option Obj) (objv : List Obj) (stmt : Stmt)
      → Settles stmt (insert_result table id objv stmt)
  unfolding insert_result
  insert_result-Settles table id objv stmt s h =
      elim (Option-cases (append_element table (result_id id objv s.calls))) [
        | inl e ↦ rw (e, insert_result) (fail-Settles stmt not_a_list s h)
        | inr (o, e) ↦ rw (e, insert_result) (clear-Settles stmt (ok (some o)) s h)
      ]

  insert_names-Keeps :
      (junk : ℕ) (table : Obj) (id : Option Obj) (null : Option Bytes) (objv : List Obj)
      (names : List Bytes)
      → Keeps (insert_names junk table id null objv names)
  unfolding insert_names
  insert_names-Keeps junk table id null objv [] = fail-Keeps set_data
  insert_names-Keeps junk table id null objv (f ∷ fs) = elim (Bool-cases (is_odd (length objv))) [
    | inl e ↦ rw e (fail-Keeps set_data)
    | inr e ↦ rw e (
        with_sql-Keeps _ _ λ stmt s h.
          stepped-Settles stmt _ (insert_result-Settles table id objv stmt) _
            (bind_each-CleanBut stmt 1 null (at_odd objv ++ optional id) s h))
  ]

  pub insert-Clean :
      (junk : ℕ) (table : Obj) (id nullvalue : Option Obj) (objv : List Obj)
      → Keeps (insert junk table id nullvalue objv)
  unfolding insert
  insert-Clean junk table id nullvalue objv =
      with_fields-Keeps _ (spread objv) λ fields. insert_names-Keeps junk table id _ fields _

  set_or_insert-Settles :
      (junk : ℕ) (table id : Obj) (objv : List Obj) (stmt : Stmt)
      → Settles stmt (set_or_insert junk table id objv stmt)
  unfolding set_or_insert
  set_or_insert-Settles junk table id objv stmt s h = elim (Bool-cases (changes s.calls == 1)) [
    | inl e ↦ rw e (clear-Settles stmt (ok none) s h)
    | inr e ↦
        rw e (insert-Clean junk table (some id) none objv _ (clear-Settles stmt (ok none) s h))
  ]

  set_fields-Keeps :
      (junk : ℕ) (object : Obj) (null : Option Bytes) (objv : List Obj) (names : List Bytes)
      → Keeps (set_fields junk object null objv names)
  unfolding set_fields
  set_fields-Keeps junk object null objv [] s h = h
  set_fields-Keeps junk object null objv (f ∷ fs) s h = elim (Bool-cases (is_odd (length objv))) [
    | inl e ↦ rw e (fail-Keeps set_data s h)
    | inr e ↦ rw e (
        with_parts-Keeps _ (split_object object)
          (λ table id. with_sql-Keeps _ _ λ stmt s h.
            stepped-Settles stmt _ (set_or_insert-Settles junk table id objv stmt) _
              (bind_each-CleanBut stmt 1 null (at_odd objv ++ id ∷ []) s h))
          s h)
  ]

  pub set-Clean :
      (junk : ℕ) (object : Obj) (nullvalue : Option Obj) (objv : List Obj)
      → Keeps (set junk object nullvalue objv)
  unfolding set
  set-Clean junk object nullvalue objv =
      with_fields-Keeps _ (spread objv) λ fields. set_fields-Keeps junk object _ fields _

  -- Each of get, insert, set, unset and delete leaves every statement reset and with no parameter
  -- bound, whatever SQLite answers and also where the handler fails: a statement that was so before,
  -- the one that the handler runs included, is so after it.
  pub handlers-Clean :
      (junk : ℕ) (o : Obj) (id nullvalue : Option Obj) (objv : List Obj) (s : Session Obj)
      → Clean n s.calls
      → Clean n (get junk o objv s).1.calls
        × Clean n (insert junk o id nullvalue objv s).1.calls
        × Clean n (set junk o nullvalue objv s).1.calls
        × Clean n (unset junk o objv s).1.calls
        × Clean n (delete junk o s).1.calls
  handlers-Clean junk o id nullvalue objv s h = (
    get-Clean junk o objv s h,
    insert-Clean junk o id nullvalue objv s h,
    set-Clean junk o nullvalue objv s h,
    unset-Clean junk o objv s h,
    delete-Clean junk o s h,
  )
