-- ===== src/Sqlite3/Object/Common.antt =====
-- What the object commands of sqlite3/generic/sqlite.c share: results, arguments, steps and errors.
use tcl_dbi.Base.{
  ℕ, ◌+◌, ◌-◌, ◌%◌, Bool, true, false, Option, none, some, List, [], ◌∷◌, ◌==◌, if◌then◌else◌, ltb,
}
use tcl_dbi.Base.Int.{ℤ, pos, negsuc}
use tcl_dbi.Base.State.{◌>>=◌, State, pure, ◌>>◌}
use tcl_dbi.Memory.{Bytes}
use tcl_dbi.Sqlite3.Host.{Host, Stmt, StepCode, done, okay, step}
use tcl_dbi.Sqlite3.Session.{
  Lookup, failed, got, prepare_cached, Session, call, release, clear_result, bind_arg,
}

-- The errors, by the place that raises them; the library's own texts are left out.
pub data Message : Type 0 where
  not_a_list not_table_id set_data no_fields_to_unset preparing_statement step_failed : Message
  object_not_found : Bytes → Message

-- The handlers' results: TCL_OK with the value set, TCL_ERROR, and `fault` for a store outside a
-- buffer or a use of NULL.
pub data Outcome (A : Type 0) : Type 0 where
  ok : Option A → Outcome A
  error : Message → Outcome A
  fault : Outcome A

-- `Tcl_NewIntObj` takes an int: the 64-bit value modulo 2^32.
abbrev pub to_int32 : ℤ → ℤ
to_int32 (pos n) =
    let m = n % 4294967296 in if ltb m 2147483648 then pos m else negsuc (4294967295 - m)
to_int32 (negsuc n) =
    let m = n % 4294967296 in if ltb m 2147483648 then negsuc m else pos (4294967295 - m)

-- The arguments at even places, the names, and at odd places, the values.
abbrev pub at_even {ℓ} : {A : Type ℓ} → List A → List A
at_even [] = []
at_even (x ∷ []) = x ∷ []
at_even (x ∷ y ∷ xs) = x ∷ at_even xs

abbrev pub at_odd {ℓ} : {A : Type ℓ} → List A → List A
at_odd [] = []
at_odd (x ∷ []) = []
at_odd (x ∷ y ∷ xs) = y ∷ at_odd xs

abbrev pub is_odd : ℕ → Bool
is_odd n = n % 2 == 1

pub data Split (Obj : Type 0) : Type 0 where
  bad : Message → Split Obj
  parts : Obj → Obj → Split Obj

-- `objc == 2`
abbrev two_parts : {Obj : Type 0} → List Obj → Split Obj
two_parts (table ∷ id ∷ []) = parts table id
two_parts objv = bad not_table_id

abbrev pub is_okay : StepCode → Bool
is_okay okay = true
is_okay done = true
is_okay _ = false

module _ ⦃host : Host⦄ where
  open host use {Obj, elements, step_result}

  abbrev pub M : Type 0
  M = State (Session Obj) (Outcome Obj)

  -- dbi_Sqlite3_SplitObject
  unfoldable pub split_object : Obj → Split Obj
  split_object object = elim (elements object) [
    | none ↦ bad not_a_list
    | some objv ↦ two_parts objv
  ]

  abbrev pub run_step : Stmt → State (Session Obj) StepCode
  run_step stmt s = (step_result s.calls stmt, (call (step stmt) s).1)

  -- The label `error:` of every handler.
  abbrev pub fail : Stmt → Message → M
  fail stmt m = do release stmt; clear_result; pure (error m)

  -- `if (error != SQLITE_OK)` after dbi_Sqlite3_preparecached
  abbrev pub use_lookup : (Stmt → M) → Lookup → M
  use_lookup next (failed e) = fail none preparing_statement
  use_lookup next (got stmt) = next stmt

  -- `dbi_Sqlite3_bindarg` for each value, from place `j` on
  unfoldable pub bind_each : Stmt → ℕ → Option Bytes → List Obj → State (Session Obj) (Unit {0})
  bind_each stmt j null [] = pure tt
  bind_each stmt j null (o ∷ os) = bind_arg stmt j o null >> bind_each stmt (j + 1) null os

  -- One list argument stands for its elements; one that is no list is an error by itself.
  abbrev pub spread : List Obj → Option (List Obj)
  spread (o ∷ []) = elements o
  spread objv = some objv

  unfoldable pub with_fields : (List Obj → M) → Option (List Obj) → M
  with_fields next none = pure (error not_a_list)
  with_fields next (some fields) = next fields

  unfoldable pub with_parts : (Obj → Obj → M) → Split Obj → M
  with_parts next (bad m) = fail none m
  with_parts next (parts table id) = next table id

  -- The statement text is looked up in the cache or prepared; a text that did not fit its buffer is
  -- a fault.
  unfoldable pub with_sql : (Stmt → M) → Option Bytes → M
  with_sql next none = pure fault
  with_sql next (some sql) = prepare_cached sql >>= use_lookup next
