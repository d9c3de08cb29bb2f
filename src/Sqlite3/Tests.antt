-- ===== src/Sqlite3/Tests.antt =====
-- A small Tcl and SQLite to run sqlite3/generic/sqlite.c on, with runs and the theorems at
-- concrete arguments.
pub mod Runs
use tcl_dbi.Base.{
  ℕ, zero, suc, ◌≡◌, refl, Option, none, some, List, [], ◌∷◌, ◌++◌, ◌==◌, map, ltb, if◌then◌else◌,
  false,
}
use mathlib.Core.Option
use tcl_dbi.Base.Int.{ℤ, pos}
use tcl_dbi.Memory.{bytes_eq, Bytes, NoNul, c_string, codes}
use tcl_dbi.Memory.Cursor.{c_string-clean}
use tcl_dbi.Sqlite3.Host.{
  Host, History, Stmt, StepCode, row, done, step, Prepared, ready, Value, integer, null,
}
use tcl_dbi.Sqlite3.Session.{Session, Pending}

-- A value is the list of its words.
abbrev pub Words : Type 0
Words = List Bytes

abbrev spaced : Words → Bytes
spaced [] = []
spaced (w ∷ []) = w
spaced (w ∷ ws) = w ++ 32 ∷ spaced ws

abbrev pub steps : History → ℕ
steps [] = 0
steps (step s ∷ cs) = suc (steps cs)
steps (c ∷ cs) = steps cs

abbrev place : List Bytes → Bytes → Option ℕ
place [] b = none
place (w ∷ ws) b = if bytes_eq w b then some 0 else Option.map suc (place ws b)

-- A result of `rows` lines; one row changed by each statement; the next row id is 5.
abbrev pub sample : ℕ → Host
sample rows = record {
  Obj = Words;
  string = λ o. c_string (spaced o);
  type_name = λ o. [];
  byte_array = spaced;
  int_value = λ o. pos 0;
  wide_value = λ o. pos 0;
  double_value = λ o. 0;
  get_int = λ o. none;
  get_index = λ words o. place words (spaced o);
  elements = λ o. some (map (λ w. w ∷ []) o);
  append_element = λ o e. some (o ++ spaced e ∷ []);
  new_string = λ b. b ∷ [];
  new_byte_array = λ b. b ∷ [];
  new_int = λ z. codes "int" ∷ [];
  new_wide = λ z. codes "wide" ∷ [];
  new_double = λ z. codes "double" ∷ [];
  new_list = λ os. map spaced os;
  prepare_result = λ calls sql. ready (some 7) [];
  step_result = λ calls s. if ltb (steps calls) rows then row else done;
  parameter_count = λ calls s. 2;
  changes = λ calls. 1;
  last_insert_rowid = λ calls. pos 5;
  column_names = λ calls s. codes "id" ∷ codes "name" ∷ [];
  column_values = λ calls s. integer (pos 1) ∷ null ∷ [];
  exec_error = λ calls sql. none;
  error_text = λ calls. [];
}

-- Every string of the sample ends at its first NUL.
pub sample-NoNul : (rows : ℕ) (o : Words) → NoNul ((sample rows).string o)
sample-NoNul rows o = c_string-clean (spaced o)

-- A fresh object.
abbrev pub no_result : Pending
no_result = record {
  stmt = none;
  cached = false;
  resultfields = none;
  nfields = none;
  tuple = none;
  ntuples = none;
}

abbrev pub fresh : Session Words
fresh = record {
  calls = [];
  cache = [];
  own = no_result;
  clones = [];
  nullvalue = none;
  defnullvalue = [];
}

-- After `exec -usefetch` of a query: one step is made.
abbrev pub pending : Session Words
pending = record fresh {
  calls = step (some 7) ∷ [];
  own = record no_result {
    stmt = some 7;
    resultfields = some (codes "id" ∷ codes "name" ∷ []);
    nfields = some 2;
  };
}
