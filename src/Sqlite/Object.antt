-- ===== src/Sqlite/Object.antt =====
-- The object commands of sqlite/generic/sqlite.c: dbi_Sqlite_Get, dbi_Sqlite_Insert, dbi_Sqlite_Set,
-- dbi_Sqlite_Unset and dbi_Sqlite_Delete, with SplitObject. `junk` fills the buffers, and `beyond` is
-- the byte behind the NUL of an empty argument.
pub mod Outcomes
use tcl_dbi.Base.{
  ℕ, zero, suc, Bool, true, false, not, Option, none, some, List, [], ◌∷◌, ◌++◌, ◌==◌, ◌||◌, map,
  if◌then◌else◌,
}
use mathlib.Core.Option
use tcl_dbi.Memory.{Bytes, bytes_eq, codes}
use tcl_dbi.Tcl.{Tcl}
use tcl_dbi.Sqlite.Statement.{get_sql, insert_sql, set_sql, unset_sql, delete_sql}
use tcl_dbi.Sqlite.Session.{
  Host, Code, okay, Element, default_null, given, value, number, Item, cell, line, Session, M,
  ◌>>=◌, clear_result, run_filling, run_text, if_autocommit, end_exec,
}
use tcl_dbi.Sqlite.Exec.{
  Answer, ok, failed, Failure, bad_data, bad_object, not_a_list, no_fields, not_found,
  database_error,
}

module _ ⦃tcl : Tcl⦄ ⦃host : Host⦄ where
  open tcl use {Obj, string, elements}
  open host use {changes, last_insert_rowid}

  abbrev answer : Answer Obj → M Obj (Answer Obj)
  answer a s = some (a, s)

  -- The error label: the result is cleared.
  abbrev fail : Failure → M Obj (Answer Obj)
  fail e s = some (failed e, clear_result s)

  -- One argument is the list of all of them.
  unfoldable pub arguments : List Obj → Option (List Obj)
  arguments (o ∷ []) = elements o
  arguments os = some os

  pairs_of : List Obj → Option (List (Obj × Obj))
  pairs_of [] = some []
  pairs_of (f ∷ []) = none
  pairs_of (f ∷ v ∷ os) = Option.map (λ r. (f, v) ∷ r) (pairs_of os)

  -- dbi_Sqlite_SplitObject: the table and the id
  unfoldable pub split_object : Obj → Failure × Option (Obj × Obj)
  split_object o = elim (elements o) [
    | some (t ∷ id ∷ []) ↦ (bad_object, some (t, id))
    | some _ ↦ (bad_object, none)
    | none ↦ (not_a_list, none)
  ]

  -- `sqlite_exec` on a fresh flat result; a text that left its buffer is a fault.
  abbrev run_filled : Option Bytes → M Obj Code
  run_filled none s = none
  run_filled (some sql) s = run_filling sql (record s { resultflat = true; result = some [] })

  -- The same for unset, which gives no callback.
  abbrev run_plain : Option Bytes → M Obj Code
  run_plain none s = none
  run_plain (some sql) s =
      some (host.code s.calls sql, run_text sql (record s { resultflat = true; result = some [] }))

  -- SQLITE_OK goes on, after the end of the transaction.
  abbrev on_okay : M Obj (Answer Obj) → Code → M Obj (Answer Obj)
  on_okay next okay s = next (if_autocommit end_exec s)
  on_okay next c s = fail database_error s

  -- Fields and values in turn, for the values that are not defnullvalue; a value is read for each
  -- field.
  unfoldable pub named_values : List Bytes → List (Item Obj) → Option (List (Item Obj))
  named_values [] items = some []
  named_values (n ∷ ns) [] = none
  named_values (n ∷ ns) (cell default_null ∷ items) = named_values ns items
  named_values (n ∷ ns) (item ∷ items) =
      Option.map (λ r. cell (value n) ∷ item ∷ r) (named_values ns items)

  hand_over : List (Item Obj) → M Obj (Answer Obj)
  hand_over items s = some (ok (some items), clear_result s)

  -- The result by the number of fields named: none, one, more.
  get_shape : ℕ → Option (List Bytes) → Option (List (Item Obj)) → M Obj (Answer Obj)
  unfolding named_values hand_over
  get_shape n fields none s = none
  get_shape zero none (some items) s = none
  get_shape zero (some names) (some items) s = elim (named_values names items) [
    | none ↦ none
    | some r ↦ hand_over r s
  ]
  get_shape (suc zero) fields (some []) s = none
  get_shape (suc zero) fields (some (item ∷ _)) s = hand_over (item ∷ []) s
  get_shape (suc (suc n)) fields (some items) s = hand_over items s

  unfoldable pub count_of : List Obj → ℕ
  count_of [] = 0
  count_of (o ∷ []) = 1
  count_of (o ∷ p ∷ os) = 2

  unfoldable pub got : List Obj → M Obj (Answer Obj)
  unfolding get_shape count_of clear_result
  got fields s =
      if s.ntuples == 0
      then fail not_found s
      else get_shape (count_of fields) s.resultfields s.result s

  get_row : ℕ → Option (Obj × Obj) → Failure → List Obj → M Obj (Answer Obj)
  unfolding got get_sql clear_result run_filling
  get_row junk none e fields s = fail e s
  get_row junk (some (t, id)) e fields s =
      (run_filled (get_sql junk (string t) (string id) (map string fields))
          >>= on_okay (got fields))
        s

  -- dbi_Sqlite_Get
  unfoldable pub get : ℕ → Obj → List Obj → M Obj (Answer Obj)
  unfolding arguments split_object get_row
  get junk object objv s = elim (arguments objv) [
    | none ↦ some (failed not_a_list, s)
    | some fields ↦ get_row junk (split_object object).1 (split_object object).0 fields s
  ]

  abbrev is_id : Obj → Bool
  is_id f = bytes_eq (string f) (codes "id")

  names_id : List (Obj × Obj) → Bool
  names_id [] = false
  names_id ((f, v) ∷ fvs) = is_id f || names_id fvs

  texts : List (Obj × Obj) → List (Bytes × Bytes)
  texts [] = []
  texts ((f, v) ∷ fvs) = (string f, string v) ∷ texts fvs

  -- The id of the result: the one given, else for a field `id` the first value of all, else the
  -- rowid.
  unfoldable pub new_id : Option Obj → Obj → List (Obj × Obj) → Session Obj → Element Obj
  unfolding names_id
  new_id (some id) v fvs s = given id
  new_id none v fvs s = if names_id fvs then given v else number (last_insert_rowid s.calls)

  abbrev with_id : Obj → Element Obj → Option (List (Item Obj)) → M Obj (Answer Obj)
  with_id table e none s = none
  with_id table e (some items) s = hand_over (items ++ cell (given table) ∷ cell e ∷ []) s

  insert_pairs :
      ℕ → ℕ → Obj → Option Obj → Option Bytes → Option (List (Obj × Obj)) → M Obj (Answer Obj)
  unfolding texts new_id insert_sql clear_result run_filling hand_over
  insert_pairs junk beyond table id null none s = fail bad_data s
  insert_pairs junk beyond table id null (some []) s = fail bad_data s
  insert_pairs junk beyond table id null (some ((f, v) ∷ fvs)) s =
      let sql =
        insert_sql junk beyond (string table) (Option.map string id) null (string f, string v)
          (texts fvs) in
      let next : M Obj (Answer Obj) =
        λ t. with_id table (new_id id v ((f, v) ∷ fvs) t) t.result t in
      (run_filled sql >>= on_okay next) s

  -- dbi_Sqlite_Insert
  unfoldable pub insert : ℕ → ℕ → Obj → Option Obj → Option Obj → List Obj → M Obj (Answer Obj)
  unfolding arguments pairs_of insert_pairs
  insert junk beyond table id nullvalue objv s = elim (arguments objv) [
    | none ↦ some (failed not_a_list, s)
    | some os ↦ insert_pairs junk beyond table id (Option.map string nullvalue) (pairs_of os) s
  ]

  -- An update that changes no row, or several, is followed by an insert without the null value.
  set_done : ℕ → ℕ → Obj → Obj → List Obj → ℕ → M Obj (Answer Obj)
  unfolding insert clear_result
  set_done junk beyond table id os changed s =
      if changed == 1
      then some (ok s.result, clear_result s)
      else insert junk beyond table (some id) none os s

  set_pairs :
      ℕ
      → ℕ
      → Option (Obj × Obj)
      → Failure
      → Option Bytes
      → List Obj
      → List (Obj × Obj)
      → M Obj (Answer Obj)
  unfolding texts set_done set_sql clear_result run_filling
  set_pairs junk beyond place e null os [] s = some (ok none, s)
  set_pairs junk beyond none e null os ((f, v) ∷ fvs) s = fail e s
  set_pairs junk beyond (some (t, id)) e null os ((f, v) ∷ fvs) s =
      let sql = set_sql junk beyond (string t) (string id) null (string f, string v) (texts fvs) in
      let next : Code → M Obj (Answer Obj) =
        λ c r. on_okay (set_done junk beyond t id os (changes r.calls)) c r in
      (run_filled sql >>= next) s

  set_arguments :
      ℕ → ℕ → Obj → Option Bytes → List Obj → Option (List (Obj × Obj)) → M Obj (Answer Obj)
  unfolding split_object set_pairs clear_result
  set_arguments junk beyond object null os none s = fail bad_data s
  set_arguments junk beyond object null os (some fvs) s =
      set_pairs junk beyond (split_object object).1 (split_object object).0 null os fvs s

  -- dbi_Sqlite_Set
  unfoldable pub set : ℕ → ℕ → Obj → Option Obj → List Obj → M Obj (Answer Obj)
  unfolding arguments pairs_of set_arguments
  set junk beyond object nullvalue objv s = elim (arguments objv) [
    | none ↦ some (failed not_a_list, s)
    | some os ↦ set_arguments junk beyond object (Option.map string nullvalue) os (pairs_of os) s
  ]

  -- unset leaves its empty result, and sets none.
  unset_done : ℕ → M Obj (Answer Obj)
  unfolding clear_result
  unset_done changed s = if changed == 1 then some (ok none, s) else fail not_found s

  unset_fields : ℕ → Option (Obj × Obj) → Failure → List Obj → M Obj (Answer Obj)
  unfolding unset_done unset_sql clear_result
  unset_fields junk place e [] s = fail no_fields s
  unset_fields junk none e (f ∷ fs) s = fail e s
  unset_fields junk (some (t, id)) e (f ∷ fs) s =
      let sql = unset_sql junk (string t) (string id) (string f) (map string fs) in
      let next : Code → M Obj (Answer Obj) = λ c r. on_okay (unset_done (changes r.calls)) c r in
      (run_plain sql >>= next) s

  -- dbi_Sqlite_Unset
  unfoldable pub unset : ℕ → Obj → List Obj → M Obj (Answer Obj)
  unfolding arguments split_object unset_fields
  unset junk object objv s = elim (arguments objv) [
    | none ↦ some (failed not_a_list, s)
    | some fields ↦ unset_fields junk (split_object object).1 (split_object object).0 fields s
  ]

  delete_done : ℕ → M Obj (Answer Obj)
  unfolding clear_result
  delete_done changed s =
      if changed == 1 then some (ok s.result, clear_result s) else fail not_found s

  delete_row : ℕ → Option (Obj × Obj) → Failure → M Obj (Answer Obj)
  unfolding delete_done delete_sql clear_result run_filling
  delete_row junk none e s = fail e s
  delete_row junk (some (t, id)) e s =
      let next : Code → M Obj (Answer Obj) = λ c r. on_okay (delete_done (changes r.calls)) c r in
      (run_filled (delete_sql junk (string t) (string id)) >>= next) s

  -- dbi_Sqlite_Delete
  unfoldable pub delete : ℕ → Obj → M Obj (Answer Obj)
  unfolding split_object delete_row
  delete junk object = delete_row junk (split_object object).1 (split_object object).0
