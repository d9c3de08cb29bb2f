-- ===== src/Sqlite3/Statement.antt =====
-- The SQL texts that sqlite3/generic/sqlite.c builds in a buffer of a computed size, for the
-- object commands get, insert, set, unset and delete. `none` is a store outside the buffer, or a size
-- that leaves the range of the int in which it is summed.
-- Names are the string representations of the command's arguments.
pub mod Text
pub mod Loops
pub mod Update
pub mod Select
pub mod Insert
use tcl_dbi.Base.{
  ℕ, zero, suc, ◌+◌, ◌≡◌, refl, Bool, true, false, Option, none, some, List, [], ◌∷◌, ◌++◌, leb,
  ltb, max, if◌then◌else◌, ◌>>=◌, length,
}
use tcl_dbi.Memory.{Bytes, codes, c_string, alloc_int, sprintf, put_bytes}
use tcl_dbi.Memory.Cursor.{Cursor, emit}

-- `\"%s\"`
abbrev pub quoted : Bytes → Bytes
quoted s = b'"' ∷ (c_string s ++ b'"' ∷ [])

-- ` where "id" = ?`, with which every statement on one object ends
abbrev pub where_id : Bytes
where_id = codes " where \"id\" = ?"

-- The columns of get, `,"` name `"` byte by byte from the second on.
unfoldable pub put_columns : List Bytes → Cursor → Option Cursor
put_columns [] c = some c
put_columns (f ∷ fs) (mem, pos) =
    put_bytes mem pos (b',' ∷ b'"' ∷ (f ++ b'"' ∷ [])) >>= put_columns fs

unfoldable pub sum_lengths : ℕ → List Bytes → ℕ
sum_lengths extra [] = 0
sum_lengths extra (f ∷ fs) = (length f + extra) + sum_lengths extra fs

-- The same with names of less than two bytes counted as two.
unfoldable pub sum_lengths_min2 : ℕ → List Bytes → ℕ
sum_lengths_min2 extra [] = 0
sum_lengths_min2 extra (f ∷ fs) = (max 2 (length f) + extra) + sum_lengths_min2 extra fs

unfoldable pub get_sql : ℕ → Bytes → Bytes → List Bytes → Option Bytes
get_sql junk table id [] = alloc_int junk (33 + length table + length id) >>= λ buffer.
    sprintf buffer 0 (codes "select * from " ++ (quoted table ++ where_id)) >>= λ mem.
    some (c_string mem)
get_sql junk table id (f ∷ fs) =
    alloc_int junk (33 + length table + length id + sum_lengths 3 (f ∷ fs)) >>= λ buffer.
    sprintf buffer 0 (codes "select ") >>= λ mem. put_bytes mem 7 (b'"' ∷ (f ++ b'"' ∷ [])) >>= λ c.
    put_columns fs c >>= λ (mem, pos).
    sprintf mem pos (codes " from " ++ (quoted table ++ where_id)) >>= λ mem. some (c_string mem)

-- `for (...) {sprintf(pos, format, f); pos += step;}` over the names
unfoldable pub emit_each : (Bytes → Bytes) → (Bytes → ℕ) → List Bytes → Cursor → Option Cursor
emit_each format step [] c = some c
emit_each format step (f ∷ fs) c = emit (format f) (step f) c >>= emit_each format step fs

-- The statement's end: ` where "id" = ?`, and the buffer as `sqlite3_prepare_v2` reads it.
abbrev pub finish : Bytes → Cursor → Option Bytes
finish s (mem, pos) = sprintf mem pos s >>= λ mem'. some (c_string mem')

abbrev pub set_size : Bytes → Bytes → Bytes → List Bytes → ℕ
set_size table id f fs = 36 + length table + length id + sum_lengths_min2 8 (f ∷ fs)

unfoldable pub set_sql : ℕ → Bytes → Bytes → Bytes → List Bytes → Option Bytes
set_sql junk table id f fs = alloc_int junk (set_size table id f fs) >>= λ buffer.
    emit (codes "update " ++ (quoted table ++ (codes " set " ++ (quoted f ++ codes " = ?"))))
      (20 + length table + length f) (buffer, 0)
    >>= λ c.
        emit_each (λ g. codes ", " ++ (quoted g ++ codes " = ?")) (λ g. 8 + length g) fs c
        >>= finish where_id

unfoldable pub unset_sql : ℕ → Bytes → Bytes → Bytes → List Bytes → Option Bytes
unset_sql junk table id f fs =
    alloc_int junk (36 + length table + length id + sum_lengths 11 (f ∷ fs)) >>= λ buffer.
    emit (codes "update " ++ (quoted table ++ (codes " set " ++ (quoted f ++ codes " = NULL"))))
      (23 + length table + length f) (buffer, 0)
    >>= λ c.
        emit_each (λ g. codes ", " ++ (quoted g ++ codes " = NULL")) (λ g. 11 + length g) fs c
        >>= finish where_id

unfoldable pub delete_sql : ℕ → Bytes → Bytes → Option Bytes
delete_sql junk table id = alloc_int junk (31 + length table + length id) >>= λ buffer.
    finish (codes "delete from " ++ (quoted table ++ where_id)) (buffer, 0)

-- The room that insert reserves for the column `id`, given apart from the other columns.
abbrev pub id_room : Option Bytes → ℕ
id_room none = 0
id_room (some id) = 5 + 3 + length id

abbrev pub emit_if_id : Option Bytes → Bytes → ℕ → Cursor → Option Cursor
emit_if_id none s step c = some c
emit_if_id (some id) s step c = emit s step c

abbrev pub insert_size : Bytes → Option Bytes → Bytes → List Bytes → ℕ
insert_size table id f fs = 31 + length table + sum_lengths_min2 5 (f ∷ fs) + id_room id

-- insert, with one value for each name; the two last bytes are stored by `*pos++`
unfoldable pub insert_sql : ℕ → Bytes → Option Bytes → Bytes → List Bytes → Option Bytes
insert_sql junk table id f fs = alloc_int junk (insert_size table id f fs) >>= λ buffer.
    emit (codes "insert into " ++ (quoted table ++ (codes " (" ++ quoted f)))
      (18 + length table + length f) (buffer, 0)
    >>= λ c. emit_each (λ g. b',' ∷ quoted g) (λ g. 3 + length g) fs c >>= λ c.
        emit_if_id id (codes ",\"id\"") 5 c >>= λ c. emit (codes ") values (?") 11 c >>= λ c.
        emit_each (λ _. codes ",?") (λ _. 2) fs c >>= λ c.
        emit_if_id id (codes ",?") 2 c >>= λ (mem, pos).
        put_bytes mem pos (b')' ∷ 0 ∷ []) >>= λ (mem, _). some (c_string mem)
