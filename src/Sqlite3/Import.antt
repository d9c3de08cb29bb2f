-- ===== src/Sqlite3/Import.antt =====
-- sqlite3/generic/dbi_sqlite_import.c: lines of a file, their columns, and a row for each of them.
-- The file is what is left of it to read.
pub mod Reading
pub mod Columns
pub mod Command
pub mod Rows
pub mod Table
pub mod Tests
use mathlib.Core.Option
use tcl_dbi.Base.{
  ℕ, zero, suc, ◌+◌, ◌-◌, ◌*◌, Bool, true, false, not, Option, none, some, List, [], ◌∷◌, ◌++◌,
  ◌==◌, ◌&&◌, ◌||◌, ltb, length, get_elem?, if◌then◌else◌,
}
use tcl_dbi.Memory.{Bytes, bytes_eq, c_string, codes}
use tcl_dbi.Sqlite3.Host.{
  Stmt, Call, History, Binding, bind_null, bind_text, bind, step, reset, finalize, exec,
}

pub data Read : Type 0 where
  got : Bytes → Bytes → Read
  at_end unending : Read

-- At most `k` bytes, up to a newline, which is among them; and what is left.
abbrev pub chunk : ℕ → Bytes → Bytes × Bytes
chunk zero file = ([], file)
chunk (suc k) [] = ([], [])
chunk (suc k) (c ∷ cs) =
    if c == 10 then (c ∷ [], cs) else let rest = chunk k cs in (c ∷ rest.0, rest.1)

-- fgets with the size of its buffer; none at the end of the file.
abbrev pub fgets : ℕ → Bytes → Option (Bytes × Bytes)
fgets size [] = none
fgets size (c ∷ cs) = some (chunk (size - 1) (c ∷ cs))

-- A text that ends in a newline, without it.
abbrev pub strip_newline : Bytes → Option Bytes
strip_newline [] = none
strip_newline (c ∷ []) = if c == 10 then some [] else none
strip_newline (c ∷ d ∷ cs) = Option.map (λ l. c ∷ l) (strip_newline (d ∷ cs))

abbrev pub is_empty : Bytes → Bool
is_empty [] = true
is_empty (c ∷ cs) = false

abbrev pub at_newline : Option Bytes → Bytes → Bytes → (Bytes → Bytes → Read) → Read
at_newline (some line) text rest next = got line rest
at_newline none text rest next = next text rest

abbrev pub after_gets : Option (Bytes × Bytes) → Bytes → (Bytes → Bytes → Read) → Read
after_gets none text next = if is_empty text then at_end else got text []
after_gets (some part) text next =
    let text' = text ++ c_string part.0 in at_newline (strip_newline text') text' part.1 next

-- the size of the buffer that the loop makes sure of
abbrev pub grown : ℕ → ℕ → ℕ
grown size n = if ltb size (n + 100) then size * 2 + 100 else size

-- The loop of local_getline: `text` is in the buffer of `size` bytes.
unfoldable pub read_line : ℕ → ℕ → Bytes → Bytes → Read
read_line zero size text file = unending
read_line (suc f) size text file =
    let size' = grown size (length text) in
    after_gets (fgets (size' - length text) file) text (read_line f size')

unfoldable pub local_getline : Bytes → Read
unfolding read_line
local_getline file = read_line (length file + 1) 100 [] file

abbrev pub starts_with : Bytes → Bytes → Bool
starts_with [] z = true
starts_with (s ∷ ss) [] = false
starts_with (s ∷ ss) (c ∷ cs) = (s == c) && starts_with ss cs

abbrev pub add_byte : ℕ → List Bytes × ℕ → List Bytes × ℕ
add_byte c ([], n) = ((c ∷ []) ∷ [], n)
add_byte c (column ∷ rest, n) = ((c ∷ column) ∷ rest, n)

-- A column ends here, and one begins behind the separator if there is still one to fill.
abbrev pub cut : Bool → List Bytes × ℕ → List Bytes × ℕ
cut true (rest, n) = ([] ∷ rest, n)
cut false (rest, n) = ([] ∷ [], n)

-- The columns of a line from the byte `z` on, where column `i` is read, and the number of the last
-- one; `skip` bytes belong to a separator. A column behind the last of the table is only counted.
unfoldable pub columns : Bytes → ℕ → ℕ → ℕ → Bytes → List Bytes × ℕ
columns separator count i skip [] = ([] ∷ [], i)
columns separator count i (suc skip) (c ∷ z) = columns separator count i skip z
columns separator count i zero (c ∷ z) =
    let at = starts_with separator (c ∷ z) in
    let inside = ltb (i + 1) count in
    let rest =
      columns separator count (if at then i + 1 else i)
        (if at && inside then length separator - 1 else 0) z in
    if at then cut inside rest else add_byte c rest

-- `strcmp(azCol[i], zNull) == 0`, or nothing there
abbrev pub is_null : Bytes → Bytes → Bool
is_null null [] = true
is_null null (c ∷ cs) = not (is_empty null) && bytes_eq (c ∷ cs) null

abbrev pub column_binding : Bytes → Bytes → Binding
column_binding null column = if is_null null column then bind_null else bind_text column

-- `count` columns from place `j` on; those that the line does not have are null.
unfoldable pub bind_columns : Stmt → Bytes → ℕ → ℕ → List Bytes → History → History
bind_columns stmt null j zero cs calls = calls
bind_columns stmt null j (suc k) [] calls =
    bind_columns stmt null (j + 1) k [] (bind stmt j bind_null ∷ calls)
bind_columns stmt null j (suc k) (c ∷ cs) calls =
    bind_columns stmt null (j + 1) k cs (bind stmt j (column_binding null c) ∷ calls)

-- How the loop over the lines ends, at which line.
pub data Inserted : Type 0 where
  all_lines too_many_columns row_refused : ℕ → Inserted
  endless_lines : Inserted

pub record Format : Type 0 where
  pub separator : Bytes
  pub null : Bytes
  pub count : ℕ

abbrev pub ending : Inserted → Bytes
ending (all_lines n) = codes "COMMIT"
ending _ = codes "ROLLBACK"

abbrev pub ended : Stmt → Inserted × History → Inserted × History
ended stmt (how, calls) = (how, exec (ending how) ∷ finalize stmt ∷ calls)

-- What sqlite3_reset answers for the step before it is a parameter.
module _ (reset_accepts : History → Bool) where
  abbrev pub insert_row : Format → Stmt → List Bytes → History → History
  insert_row q stmt row calls =
      reset stmt ∷ step stmt ∷ bind_columns stmt q.null 1 q.count row calls

  abbrev pub after_row : (History → Inserted × History) → ℕ → History → Inserted × History
  after_row next lineno calls =
      let rest = next calls in if reset_accepts calls then rest else (row_refused lineno, calls)

  abbrev pub with_line :
      Format
      → Stmt
      → ℕ
      → (Bytes → History → Inserted × History)
      → Read
      → History
      → Inserted × History
  with_line q stmt lineno next at_end calls = (all_lines lineno, calls)
  with_line q stmt lineno next unending calls = (endless_lines, calls)
  with_line q stmt lineno next (got line rest) calls =
      let row = columns q.separator q.count 0 0 line in
      if ltb q.count (row.1 + 1)
      then (too_many_columns (lineno + 1), calls)
      else after_row (next rest) (lineno + 1) (insert_row q stmt row.0 calls)

  -- `while( (zLine = local_getline(0, in))!=0 )`, on fuel
  unfoldable pub insert_lines : ℕ → Format → Stmt → ℕ → Bytes → History → Inserted × History
  unfolding local_getline columns bind_columns
  insert_lines zero q stmt lineno file calls = (endless_lines, calls)
  insert_lines (suc f) q stmt lineno file calls =
      with_line q stmt lineno (insert_lines f q stmt (lineno + 1)) (local_getline file) calls

  -- From BEGIN to COMMIT or ROLLBACK; the fuel is one more than there are bytes.
  unfoldable pub import_lines : Format → Stmt → Bytes → History → Inserted × History
  unfolding insert_lines
  import_lines q stmt file calls =
      ended stmt (insert_lines (length file + 1) q stmt 0 file (exec (codes "BEGIN") ∷ calls))
