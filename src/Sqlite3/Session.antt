-- ===== src/Sqlite3/Session.antt =====
-- One database object of sqlite3/generic/sqlite.c as its handlers see it: the calls made so far, the
-- statement cache and the pending result, with the helpers that most handlers share.
use tcl_dbi.Base.{ℕ, Bool, true, false, Option, none, some, List, [], ◌∷◌, ◌||◌, if◌then◌else◌}
use tcl_dbi.Base.State.{State, pure, ◌>>◌}
use tcl_dbi.Memory.{bytes_eq, Bytes, codes}
use tcl_dbi.Sqlite3.Host.{
  Host, Stmt, Binding, bind_null, bind_int, bind_int64, bind_double, bind_text, bind_blob, Call,
  History, refused, ready, prepare, reset, clear_bindings, finalize, bind,
}

-- The fields of dbi_Sqlite3_Data that describe a pending result.
pub record Pending : Type 0 where
  pub stmt : Stmt
  pub cached : Bool
  pub resultfields : Option (List Bytes)
  pub nfields : Option ℕ
  -- the current line and the number of lines, `none` for -1
  pub tuple : Option ℕ
  pub ntuples : Option ℕ

-- The prepared statements by their SQL text (`preparedhash`).
abbrev pub Cache : Type 0
Cache = List (Bytes × Stmt)

pub record Session (Obj : Type 0) : Type 0 where
  pub calls : History
  pub cache : Cache
  pub own : Pending
  pub clones : List Pending
  pub nullvalue : Option Obj
  pub defnullvalue : Obj

abbrev pub find : Bytes → Cache → Option Stmt
find sql [] = none
find sql ((t, stmt) ∷ rest) = if bytes_eq t sql then some stmt else find sql rest

module _ {Obj : Type 0} where
  abbrev pub call : Call → State (Session Obj) (Unit {0})
  call c s = (tt, record s { calls = c ∷ s.calls })

  abbrev pub reset_and_clear : Stmt → State (Session Obj) (Unit {0})
  reset_and_clear stmt = call (reset stmt) >> call (clear_bindings stmt)

  -- `if (stmt) {sqlite3_reset(stmt); sqlite3_clear_bindings(stmt);}`
  abbrev pub release : Stmt → State (Session Obj) (Unit {0})
  release none = pure tt
  release (some n) = reset_and_clear (some n)

clear_stmt : Pending → Stmt → Bool → History → Pending × History
clear_stmt p none c calls = (p, calls)
clear_stmt p (some n) true calls = (p, clear_bindings (some n) ∷ reset (some n) ∷ calls)
clear_stmt p (some n) false calls = (record p { stmt = none }, finalize (some n) ∷ calls)

-- The calls that clear one pending result, and what is left of it.
unfoldable pub clear_pending : Pending → History → Pending × History
unfolding clear_stmt
clear_pending p calls =
    clear_stmt (record p { resultfields = none; nfields = none }) p.stmt p.cached calls

unfoldable pub clear_each : List Pending → History → List Pending × History
clear_each [] calls = ([], calls)
clear_each (p ∷ ps) calls =
    let (p', calls') = clear_pending p calls in
    let (ps', calls'') = clear_each ps calls' in (p' ∷ ps', calls'')

-- dbi_Sqlite3_ClearResult: the clones' results first. A clone has no clones, so the source's
-- recursion goes one level down.
unfoldable pub clear_result : {Obj : Type 0} → State (Session Obj) (Unit {0})
unfolding clear_pending clear_each
clear_result s =
    let (clones', calls') = clear_each s.clones s.calls in
    let (own', calls'') = clear_pending s.own calls' in
    (tt, record s { calls = calls''; own = own'; clones = clones' })

pub data Lookup : Type 0 where
  failed : ℕ → Lookup
  got : Stmt → Lookup

module _ ⦃host : Host⦄ where
  open host use {
    Obj, string, type_name, byte_array, int_value, wide_value, double_value, prepare_result,
  }

  -- dbi_Sqlite3_preparecached
  unfoldable pub prepare_cached : Bytes → State (Session Obj) Lookup
  prepare_cached sql s = elim (find sql s.cache) [
    | some stmt ↦ (got stmt, (reset_and_clear stmt s).1)
    | none ↦ elim (prepare_result s.calls sql) [
      | refused e ↦ (failed e, (call (prepare sql) s).1)
      | ready stmt rest ↦
          (got stmt, record s { calls = prepare sql ∷ s.calls; cache = (sql, stmt) ∷ s.cache })
    ]
  ]

  -- The type by which dbi_Sqlite3_bindarg chooses: "N" for the null string.
  abbrev pub bind_type : Option Bytes → Obj → Bytes
  bind_type none obj = type_name obj
  bind_type (some null) obj = if bytes_eq (string obj) null then codes "N" else type_name obj

  -- dbi_Sqlite3_bindarg
  unfoldable pub binding_of : Option Bytes → Obj → Binding
  binding_of null obj =
      let t = bind_type null obj in
      if bytes_eq t (codes "N")
      then bind_null
      else if bytes_eq t (codes "bytearray")
      then bind_blob (byte_array obj)
      else if bytes_eq t (codes "boolean") || bytes_eq t (codes "int")
      then bind_int (int_value obj)
      else if bytes_eq t (codes "double")
      then bind_double (double_value obj)
      else if bytes_eq t (codes "wideInt")
      then bind_int64 (wide_value obj)
      else bind_text (string obj)

  abbrev pub bind_arg : Stmt → ℕ → Obj → Option Bytes → State (Session Obj) (Unit {0})
  bind_arg stmt i obj null = call (bind stmt i (binding_of null obj))
