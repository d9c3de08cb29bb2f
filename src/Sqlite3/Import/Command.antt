-- ===== src/Sqlite3/Import/Command.antt =====
-- dbi_Sqlite3_Import of sqlite3/generic/dbi_sqlite_import.c: its arguments, the names of the columns,
-- and the text of the INSERT statement.
use tcl_dbi.Base.{
  ℕ, zero, suc, ◌+◌, ◌-◌, Bool, Option, none, some, List, [], ◌∷◌, ◌++◌, ◌==◌, ◌||◌, length, take,
  map, if◌then◌else◌,
}
use tcl_dbi.Base.State.{State, pure, ◌>>=◌, ◌>>◌}
use tcl_dbi.Memory.{Bytes, bytes_eq, codes}
use tcl_dbi.Sqlite3.Host.{Host, History, Prepared, refused, ready, prepare, finalize}
use tcl_dbi.Sqlite3.Session.{Session, call}
use tcl_dbi.Sqlite3.Import.{
  Read, got, at_end, unending, Inserted, all_lines, too_many_columns, row_refused, endless_lines,
  is_empty, local_getline, import_lines,
}

-- `%q` of sqlite3_snprintf: each quote twice.
abbrev pub doubled : Bytes → Bytes
doubled [] = []
doubled (c ∷ cs) = if c == 39 then 39 ∷ 39 ∷ doubled cs else c ∷ doubled cs

abbrev pub select_text : Bytes → Bytes
select_text table = codes "SELECT * FROM '" ++ (doubled table ++ codes "'")

abbrev pub column_list : Option Bytes → Bytes
column_list none = []
column_list (some header) = codes "(" ++ (header ++ codes ")")

abbrev pub insert_text : Bytes → Bytes → Option Bytes → Bytes
insert_text conflict table header =
    codes "INSERT OR "
    ++ (doubled conflict
        ++ (codes " INTO '"
            ++ (doubled table ++ (codes "'" ++ (column_list header ++ codes " VALUES(?")))))

-- `size`; a `size` of snprintf holds one byte less, and its NUL
abbrev pub text_size : Bytes → Option Bytes → ℕ
text_size table none = length (select_text table) + 50
text_size table (some header) = length (select_text table) + 52 + length header

abbrev pub snprintf : ℕ → Bytes → Bytes
snprintf size text = take (size - 1) text

abbrev pub more_places : ℕ → Bytes
more_places zero = []
more_places (suc k) = codes ",?" ++ more_places k

-- the statement for `count` columns
unfoldable pub insert_statement : Bytes → Bytes → Option Bytes → ℕ → Bytes
insert_statement conflict table header count =
    snprintf (text_size table header) (insert_text conflict table header)
    ++ (more_places (count - 1) ++ codes ")")

abbrev add_first : ℕ → List Bytes → List Bytes
add_first c [] = (c ∷ []) ∷ []
add_first c (s ∷ ss) = (c ∷ s) ∷ ss

-- The names in the first line of the file, between bytes `b`.
abbrev pub names_between : ℕ → Bytes → List Bytes
names_between b [] = [] ∷ []
names_between b (c ∷ cs) =
    let rest = names_between b cs in if c == b then [] ∷ rest else add_first c rest

abbrev names_joined : List Bytes → Bytes
names_joined [] = []
names_joined (n ∷ []) = n
names_joined (n ∷ m ∷ ns) = n ++ (codes "\",\"" ++ names_joined (m ∷ ns))

abbrev pub header_text : List Bytes → Bytes
header_text names = codes "\"" ++ (names_joined names ++ codes "\"")

abbrev pub is_conflict : Bytes → Bool
is_conflict w =
    bytes_eq w (codes "rollback")
    || bytes_eq w (codes "abort")
    || bytes_eq w (codes "fail")
    || bytes_eq w (codes "ignore")
    || bytes_eq w (codes "replace")

pub data ImportError : Type 0 where
  wrong_arguments no_separator no_conflict_algorithm cannot_open : ImportError
  not_a_list no_columns cannot_prepare : ImportError
  columns_at row_at : ℕ → ImportError

-- TCL_OK with the number of lines, TCL_ERROR, a use of NULL, and a loop that does not end.
pub data Import : Type 0 where
  imported : ℕ → Import
  import_failed : ImportError → Import
  fault endless : Import

-- The columns: how many, their names if they are given, and what is left of the file.
pub data Header : Type 0 where
  header : ℕ → Option Bytes → Bytes → Header
  header_failed : ImportError → Header
  header_fault header_endless : Header

abbrev pub import_end : Inserted → Import
import_end (all_lines n) = imported n
import_end (too_many_columns n) = import_failed (columns_at n)
import_end (row_refused n) = import_failed (row_at n)
import_end endless_lines = endless

abbrev first_byte : Bytes → ℕ
first_byte [] = 0
first_byte (c ∷ cs) = c

-- What a file holds, `none` where it cannot be opened, and what sqlite3_reset answers.
module _ ⦃host : Host⦄ (open_file : Bytes → Option Bytes) (reset_accepts : History → Bool) where
  open host use {Obj, string, elements, prepare_result, column_names}

  abbrev named : List Bytes → Bytes → Header
  named names file = header (length names) (some (header_text names)) file

  abbrev names_read : Bytes → Read → Header
  names_read separator at_end = header_fault
  names_read separator unending = header_endless
  names_read separator (got line rest) = named (names_between (first_byte separator) line) rest

  abbrev names_given : Bytes → Bytes → Option (List Obj) → Header
  names_given separator file none = header_failed not_a_list
  names_given separator file (some []) = names_read separator (local_getline file)
  names_given separator file (some (o ∷ os)) = named (map string (o ∷ os)) file

  abbrev counted : Bytes → Prepared → State (Session Obj) Header
  counted file (refused e) s = (call (finalize none) >> pure (header 0 none file)) s
  counted file (ready stmt rest) s =
      (call (finalize stmt) >> pure (header (length (column_names s.calls stmt)) none file)) s

  -- the number of columns, from the table or from the header
  unfoldable pub find_header : Bytes → Bytes → Option Obj → Bytes → State (Session Obj) Header
  find_header table separator none file s =
      (call (prepare (select_text table))
          >> counted file (prepare_result s.calls (select_text table)))
        s
  find_header table separator (some names) file s = (names_given separator file (elements names), s)

  abbrev insert_all : Bytes → Bytes → ℕ → Bytes → Prepared → State (Session Obj) Import
  insert_all separator null count file (refused e) s =
      (call (finalize none) >> pure (import_failed cannot_prepare)) s
  insert_all separator null count file (ready stmt rest) s =
      let done =
        import_lines reset_accepts (record { separator = separator; null = null; count = count })
          stmt file s.calls in
      (import_end done.0, record s { calls = done.1 })

  abbrev with_header : Bytes → Bytes → Bytes → Bytes → Header → State (Session Obj) Import
  with_header conflict table separator null (header zero names file) s =
      (import_failed no_columns, s)
  with_header conflict table separator null (header (suc k) names file) s =
      let text = insert_statement conflict table names (suc k) in
      (call (prepare text) >> insert_all separator null (suc k) file (prepare_result s.calls text))
        s
  with_header conflict table separator null (header_failed e) s = (import_failed e, s)
  with_header conflict table separator null header_fault s = (fault, s)
  with_header conflict table separator null header_endless s = (endless, s)

  abbrev with_file :
      Bytes → Bytes → Bytes → Bytes → Option Obj → Option Bytes → State (Session Obj) Import
  with_file conflict table separator null names none = pure (import_failed cannot_open)
  with_file conflict table separator null names (some file) =
      find_header table separator names file >>= with_header conflict table separator null

  -- the handler behind the defaults of its arguments
  unfoldable pub import_with :
      Bytes → Bytes → Bytes → Bytes → Bytes → Option Obj → State (Session Obj) Import
  unfolding find_header insert_statement import_lines
  import_with conflict table file separator null names =
      if is_empty separator
      then pure (import_failed no_separator)
      else if is_conflict conflict
      then with_file conflict table separator null names (open_file file)
      else pure (import_failed no_conflict_algorithm)

  -- dbi_Sqlite3_Import, with the arguments behind `import`
  unfoldable pub import : List Obj → State (Session Obj) Import
  unfolding import_with
  import (c ∷ t ∷ f ∷ []) = import_with (string c) (string t) (string f) (codes "\t") [] none
  import (c ∷ t ∷ f ∷ s ∷ []) = import_with (string c) (string t) (string f) (string s) [] none
  import (c ∷ t ∷ f ∷ s ∷ n ∷ []) =
      import_with (string c) (string t) (string f) (string s) (string n) none
  import (c ∷ t ∷ f ∷ s ∷ n ∷ h ∷ []) =
      import_with (string c) (string t) (string f) (string s) (string n) (some h)
  import objv = pure (import_failed wrong_arguments)
