-- ===== src/Sqlite3/Host.antt =====
-- What sqlite3/generic/sqlite.c calls and this repository does not hold: the Tcl value functions and
-- the SQLite library. Each answer of SQLite may depend on every call made before it.
use tcl_dbi.Base.{ℕ, Option, List}
use tcl_dbi.Base.Int.{ℤ}
use tcl_dbi.Memory.{Bytes}

-- A prepared statement's handle, `sqlite3_stmt *`; `none` is NULL.
abbrev pub Stmt : Type 0
Stmt = Option ℕ

-- A column's value by `sqlite3_column_type`; a double is carried as its bit pattern.
pub data Value : Type 0 where
  null : Value
  integer : ℤ → Value
  float : ℕ → Value
  text blob : Bytes → Value

-- The `sqlite3_bind_*` functions, with what they bind.
pub data Binding : Type 0 where
  bind_null : Binding
  bind_int bind_int64 : ℤ → Binding
  bind_double : ℕ → Binding
  bind_text bind_blob : Bytes → Binding

-- The calls that can change the library's state.
pub data Call : Type 0 where
  prepare : Bytes → Call
  reset clear_bindings step finalize : Stmt → Call
  bind : Stmt → ℕ → Binding → Call
  exec : Bytes → Call
  close : Call

-- Newest first.
abbrev pub History : Type 0
History = List Call

pub data StepCode : Type 0 where
  row done okay : StepCode
  failure misuse : StepCode
  other : ℕ → StepCode

-- `sqlite3_prepare_v2`: an error code, or a statement (NULL for white space and comments) and the
-- text that is left over.
pub data Prepared : Type 0 where
  refused : ℕ → Prepared
  ready : Stmt → Bytes → Prepared

pub record Host : Type 1 where
  pub Obj : Type 0
  -- Tcl_GetStringFromObj, the name of typePtr (empty for none), and the internal representations
  pub string : Obj → Bytes
  pub type_name : Obj → Bytes
  pub byte_array : Obj → Bytes
  pub int_value : Obj → ℤ
  pub wide_value : Obj → ℤ
  pub double_value : Obj → ℕ
  -- Tcl_GetIntFromObj with its error, and Tcl_GetIndexFromObj: the place in a table of words
  pub get_int : Obj → Option ℤ
  pub get_index : List Bytes → Obj → Option ℕ
  -- Tcl_ListObjGetElements and Tcl_ListObjAppendElement, `none` for a value that is no list
  pub elements : Obj → Option (List Obj)
  pub append_element : Obj → Obj → Option Obj
  pub new_string : Bytes → Obj
  pub new_byte_array : Bytes → Obj
  pub new_int : ℤ → Obj
  pub new_wide : ℤ → Obj
  pub new_double : ℕ → Obj
  pub new_list : List Obj → Obj
  -- SQLite
  pub prepare_result : History → Bytes → Prepared
  pub step_result : History → Stmt → StepCode
  pub parameter_count : History → Stmt → ℕ
  pub changes : History → ℕ
  pub last_insert_rowid : History → ℤ
  pub column_names : History → Stmt → List Bytes
  pub column_values : History → Stmt → List Value
  pub exec_error : History → Bytes → Option Bytes
  pub error_text : History → Bytes
