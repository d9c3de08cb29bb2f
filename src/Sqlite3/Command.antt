-- ===== src/Sqlite3/Command.antt =====
-- Dbi_sqlite3_DbObjCmd of sqlite3/generic/sqlite.c, on an open database: the options of exec, set and
-- insert, and the counts of arguments; begin, commit and rollback; supports and interface.
pub mod Options
pub mod Tests
use tcl_dbi.Base.{
  ℕ, zero, suc, Bool, true, false, Option, none, some, List, [], ◌∷◌, ◌++◌, ◌==◌, map, get_elem?,
  if◌then◌else◌,
}
use tcl_dbi.Base.State.{State, pure, ◌>>=◌, ◌>>◌}
use tcl_dbi.Memory.{Bytes, bytes_eq, codes}
use tcl_dbi.Sqlite3.Host.{Host}
use tcl_dbi.Sqlite3.Session.{Session, clear_result}
use tcl_dbi.Sqlite3.Transaction.{transaction_start, transaction_commit, transaction_rollback}
use tcl_dbi.Sqlite3.Object.Common.{Outcome}
use tcl_dbi.Sqlite3.Object.Read.{get}
use tcl_dbi.Sqlite3.Object.Store.{insert, set}
use tcl_dbi.Sqlite3.Object.Remove.{unset, delete}
use tcl_dbi.Sqlite3.Exec.{Executed, Request}
use tcl_dbi.Sqlite3.Exec.Main.{exec}

abbrev pub exec_switches : List Bytes
exec_switches = codes "-usefetch" ∷ codes "-nullvalue" ∷ codes "-flat" ∷ codes "-cache" ∷ []

abbrev pub null_switches : List Bytes
null_switches = codes "-nullvalue" ∷ []

pub record Flags : Type 0 where
  pub use_fetch : Bool
  pub flat : Bool
  pub cache : Bool

abbrev pub no_flags : Flags
no_flags = record { use_fetch = false; flat = false; cache = false }

-- What the options leave: the command and its arguments. `beyond` is a read behind the arguments.
pub data Parsed (Obj : Type 0) : Type 0 where
  parsed : Flags → Option Obj → Obj → List Obj → Parsed Obj
  bad_option no_value beyond : Parsed Obj

abbrev pub is_option : Bytes → Bool
is_option [] = false
is_option (c ∷ cs) = c == 45

-- The switch by its place in `exec_switches`; set and insert have none but the second.
abbrev pub with_flag : ℕ → Flags → Flags
with_flag zero flags = record flags { use_fetch = true }
with_flag (suc (suc zero)) flags = record flags { flat = true }
with_flag (suc (suc (suc zero))) flags = record flags { cache = true }
with_flag _ flags = flags

-- `null_at` is the place of -nullvalue among the switches.
abbrev pub at_switch : {Obj : Type 0} → ℕ → Option ℕ → Parsed Obj → (ℕ → Parsed Obj) → Parsed Obj
at_switch null_at none value next = bad_option
at_switch null_at (some k) value next = if k == null_at then value else next k

-- TCL_OK with what the handler gives, and the errors before it.
pub data Answer (A : Type 0) : Type 0 where
  answered : A → Answer A
  wrong_arguments unknown_option value_missing read_beyond : Answer A

abbrev answer : {S A : Type 0} → State S A → State S (Answer A)
answer m s = (answered (m s).0, (m s).1)

module _ ⦃host : Host⦄ where
  open host use {Obj, string, new_string, get_index}

  -- `while (i < objc)`
  unfoldable pub read_options : List Bytes → ℕ → List Obj → Flags → Option Obj → Parsed Obj
  read_options switches null_at [] flags null = beyond
  read_options switches null_at (o ∷ []) flags null =
      if is_option (string o)
      then at_switch null_at (get_index switches o) no_value (λ k. beyond)
      else parsed flags null o []
  read_options switches null_at (o ∷ v ∷ os) flags null =
      if is_option (string o)
      then at_switch null_at (get_index switches o)
          (read_options switches null_at os flags (some v))
          (λ k. read_options switches null_at (v ∷ os) (with_flag k flags) null)
      else parsed flags null o (v ∷ os)

  -- the handler, on the arguments behind the options
  abbrev pub with_options :
      {A : Type 0}
      → (Flags → Option Obj → Obj → List Obj → State (Session Obj) A)
      → Parsed Obj
      → State (Session Obj) (Answer A)
  with_options run (parsed flags null o os) = answer (run flags null o os)
  with_options run bad_option = pure unknown_option
  with_options run no_value = pure value_missing
  with_options run beyond = pure read_beyond

  abbrev pub run_exec : ℕ → Flags → Option Obj → Obj → List Obj → State (Session Obj) (Executed Obj)
  run_exec fuel flags null cmd objv =
      exec true
        (record {
          use_fetch = flags.use_fetch;
          flat = if flags.use_fetch then false else flags.flat;
          cache = flags.cache;
          cmd = string cmd;
          null = none;
          fuel = fuel;
        })
        null objv

  -- The commands, with the arguments behind their names.
  unfoldable pub exec_command : ℕ → List Obj → State (Session Obj) (Answer (Executed Obj))
  unfolding read_options
  exec_command fuel [] = pure wrong_arguments
  exec_command fuel (o ∷ os) =
      with_options (run_exec fuel) (read_options exec_switches 1 (o ∷ os) no_flags none)

  unfoldable pub set_command : ℕ → List Obj → State (Session Obj) (Answer (Outcome Obj))
  unfolding read_options
  set_command junk [] = pure wrong_arguments
  set_command junk (o ∷ os) =
      with_options (λ flags null object objv. set junk object null objv)
        (read_options null_switches 0 (o ∷ os) no_flags none)

  unfoldable pub insert_command : ℕ → List Obj → State (Session Obj) (Answer (Outcome Obj))
  unfolding read_options
  insert_command junk [] = pure wrong_arguments
  insert_command junk (o ∷ os) =
      with_options (λ flags null table objv. insert junk table none null objv)
        (read_options null_switches 0 (o ∷ os) no_flags none)

  unfoldable pub get_command : ℕ → List Obj → State (Session Obj) (Answer (Outcome Obj))
  get_command junk [] = pure wrong_arguments
  get_command junk (object ∷ objv) = answer (get junk object objv)

  unfoldable pub unset_command : ℕ → List Obj → State (Session Obj) (Answer (Outcome Obj))
  unset_command junk [] = pure wrong_arguments
  unset_command junk (object ∷ objv) = answer (unset junk object objv)

  unfoldable pub delete_command : ℕ → List Obj → State (Session Obj) (Answer (Outcome Obj))
  delete_command junk (object ∷ []) = answer (delete junk object)
  delete_command junk objv = pure wrong_arguments

  abbrev is_none : Option Bytes → Bool
  is_none none = true
  is_none (some message) = false

  -- `begin` commits what was begun before, whether there is anything or not.
  unfoldable pub begin_command : List Obj → State (Session Obj) (Answer Bool)
  unfolding transaction_start transaction_commit
  begin_command [] = answer (
      clear_result
      >> (transaction_commit >>= λ ended. transaction_start >>= λ error. pure (is_none error)))
  begin_command (o ∷ os) = pure wrong_arguments

  unfoldable pub commit_command : List Obj → State (Session Obj) (Answer Bool)
  unfolding transaction_commit
  commit_command [] = answer (clear_result >> transaction_commit)
  commit_command (o ∷ os) = pure wrong_arguments

  unfoldable pub rollback_command : List Obj → State (Session Obj) (Answer Bool)
  unfolding transaction_rollback
  rollback_command [] = answer (clear_result >> transaction_rollback)
  rollback_command (o ∷ os) = pure wrong_arguments

  -- dbi_Sqlite3_Tables, an exec with -flat and -cache
  unfoldable pub tables_command : ℕ → List Obj → State (Session Obj) (Answer (Executed Obj))
  tables_command fuel [] = answer (
      run_exec fuel (record no_flags { flat = true; cache = true }) none
        (new_string (
          codes
            "SELECT name FROM sqlite_master WHERE type in ('table','view') and name not like '_dbi_%' ORDER BY name"))
        [])
  tables_command fuel (o ∷ os) = pure wrong_arguments

-- dbi_Sqlite3_Supports: the keywords and their values
abbrev pub keywords : List Bytes
keywords =
    codes "lines"
    ∷ codes "backfetch"
    ∷ codes "serials"
    ∷ codes "sharedserials"
    ∷ codes "blobparams"
    ∷ codes "blobids"
    ∷ codes "transactions"
    ∷ codes "sharedtransactions"
    ∷ codes "foreignkeys"
    ∷ codes "checks"
    ∷ codes "views"
    ∷ codes "columnperm"
    ∷ codes "roles"
    ∷ codes "domains"
    ∷ codes "permissions"
    ∷ []

abbrev pub supports : List ℕ
supports = 0 ∷ 0 ∷ 1 ∷ 1 ∷ 0 ∷ 0 ∷ 1 ∷ 1 ∷ 1 ∷ 1 ∷ 1 ∷ 0 ∷ 0 ∷ 0 ∷ 0 ∷ []

-- Without a keyword: the pointer to the value is tested, and never NULL.
abbrev pub all_supports : List (Bytes × Bytes)
all_supports = map (λ k. (k, codes "1")) keywords

-- With a keyword, by its place.
abbrev pub supports_keyword : Option ℕ → Option ℕ
supports_keyword none = none
supports_keyword (some index) = get_elem? supports index

-- dbi_Sqlite3_Interface, with the version that the build gives: all, or that of one
abbrev pub interfaces : Bytes → List (Bytes × Bytes)
interfaces version = (codes "dbi", version) ∷ (codes "dbi_admin", version) ∷ []

abbrev pub interface_version : List (Bytes × Bytes) → Bytes → Option Bytes
interface_version [] pattern_ = none
interface_version ((name, version) ∷ rest) pattern_ =
    if bytes_eq name pattern_ then some version else interface_version rest pattern_
