-- ===== src/Sqlite/Session.antt =====
-- One database object of sqlite/generic/sqlite.c: the texts run so far, the pending result, the
-- automatic transaction, and Fillresult, which SQLite calls for each row. Steps return `none` for a
-- use of NULL or a store outside a buffer.
use tcl_dbi.Base.{
  ℕ, suc, Bool, true, false, Option, none, some, List, [], ◌∷◌, ◌++◌, map, if◌then◌else◌, length,
}
use tcl_dbi.Base.Int.{ℤ}
use tcl_dbi.Memory.{Bytes, codes}
use tcl_dbi.Sqlite3.Row.{unquoted}

-- The texts given to sqlite_exec, newest first.
abbrev pub History : Type 0
History = List Bytes

pub data Code : Type 0 where
  okay constraint : Code
  other : ℕ → Code

-- A call of Fillresult: the columns, and the values of a row. No values come with an empty result.
pub record Callback : Type 0 where
  pub names : List Bytes
  pub values : Option (List (Option Bytes))

-- The library SQLite. Its answers may depend on every text run before.
pub record Host : Type 0 where
  pub callbacks : History → Bytes → List Callback
  pub code : History → Bytes → Code
  pub changes : History → ℕ
  pub last_insert_rowid : History → ℤ

-- A Tcl object in a result: defnullvalue, an object that the script gave, or a new one.
pub data Element (Obj : Type 0) : Type 0 where
  default_null : Element Obj
  given : Obj → Element Obj
  value : Bytes → Element Obj
  number : ℤ → Element Obj

-- An element of `result`: a value where it is flat, else a line.
pub data Item (Obj : Type 0) : Type 0 where
  cell : Element Obj → Item Obj
  line : List (Element Obj) → Item Obj

-- `nullvalue` is NULL before the first exec. A clone's autocommit and intransaction are its parent's.
pub record Session (Obj : Type 0) : Type 0 where
  pub calls : History
  pub result : Option (List (Item Obj))
  pub resultfields : Option (List Bytes)
  pub resultflat : Bool
  pub ntuples : ℕ
  pub nfields : ℕ
  pub tuple : Option ℕ
  pub nullvalue : Option (Element Obj)
  pub autocommit : Bool
  pub intransaction : Bool

abbrev pub M : Type 0 → Type 0 → Type 0
M Obj A = Session Obj → Option (A × Session Obj)

infixl 5 ◌>>=◌
abbrev pub ◌>>=◌ : {Obj A B : Type 0} → M Obj A → (A → M Obj B) → M Obj B
◌>>=◌ m f s = elim (m s) [ none ↦ none | some (a, s') ↦ f a s' ]

module _ {Obj : Type 0} where
  -- dbi_Sqlite_ClearResult
  unfoldable pub clear_result : Session Obj → Session Obj
  clear_result s = record s { result = none; resultfields = none }

  -- The values of a row; a NULL column without a null value is a use of NULL.
  unfoldable pub elements_of :
      Option (Element Obj) → List (Option Bytes) → Option (List (Element Obj))
  elements_of nv [] = some []
  elements_of none (none ∷ vs) = none
  elements_of (some e) (none ∷ vs) = elim (elements_of (some e) vs) [
    | none ↦ none
    | some es ↦ some (e ∷ es)
  ]
  elements_of nv (some v ∷ vs) = elim (elements_of nv vs) [
    | none ↦ none
    | some es ↦ some (value v ∷ es)
  ]

  -- The first call sets the fields.
  unfoldable pub set_fields : Option (List Bytes) → List Bytes → Session Obj → Session Obj
  set_fields none names s = record s {
    resultfields = some (map unquoted names);
    nfields = length names;
    ntuples = 0;
  }
  set_fields (some _) names s = s

  abbrev as_items : Bool → List (Element Obj) → List (Item Obj)
  as_items true es = map cell es
  as_items false es = line es ∷ []

  unfoldable pub append_items :
      Option (List (Item Obj)) → List (Item Obj) → Session Obj → Option (Session Obj)
  append_items none items s = none
  append_items (some done) items s = some (record s { result = some (done ++ items) })

  unfoldable pub append_elements : Option (List (Element Obj)) → Session Obj → Option (Session Obj)
  unfolding append_items
  append_elements none s = none
  append_elements (some es) s =
      append_items s.result (as_items s.resultflat es) (record s { ntuples = suc s.ntuples })

  unfoldable pub store_row : Option (List (Option Bytes)) → Session Obj → Option (Session Obj)
  unfolding elements_of append_elements
  store_row none s = some s
  store_row (some vs) s = append_elements (elements_of s.nullvalue vs) s

  -- dbi_Sqlite_Fillresult
  unfoldable pub fill_result : Callback → Session Obj → Option (Session Obj)
  unfolding set_fields store_row
  fill_result c s = store_row c.values (set_fields s.resultfields c.names s)

  unfoldable pub fill_each : List Callback → Session Obj → Option (Session Obj)
  unfolding fill_result
  fill_each [] s = some s
  fill_each (c ∷ cs) s = elim (fill_result c s) [ none ↦ none | some s' ↦ fill_each cs s' ]

  -- sqlite_exec without a callback
  abbrev pub run_text : Bytes → Session Obj → Session Obj
  run_text sql s = record s { calls = sql ∷ s.calls }

  -- sqlite_exec with Fillresult
  unfoldable pub run_filling : ⦃host : Host⦄ → Bytes → M Obj Code
  unfolding fill_each
  run_filling ⦃host⦄ sql s = elim (fill_each (host.callbacks s.calls sql) s) [
    | none ↦ none
    | some s' ↦ some (host.code s.calls sql, run_text sql s')
  ]

  -- `if (dbi_Sqlite_autocommit_state(dbdata)) sqlite_exec(...)`
  abbrev pub if_autocommit : Bytes → Session Obj → Session Obj
  if_autocommit sql s = if s.autocommit then run_text sql s else s

abbrev pub begin_exec : Bytes
begin_exec = codes "begin transaction _dbi_exec"

abbrev pub end_exec : Bytes
end_exec = codes "end transaction _dbi_exec"

abbrev pub rollback_exec : Bytes
rollback_exec = codes "rollback transaction _dbi_exec"
