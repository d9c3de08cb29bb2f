-- ===== src/Sqlite/Statement.antt =====
-- The SQL texts of the object commands of sqlite/generic/sqlite.c, stored in a buffer of a computed
-- size. The values stand in the text as literals, with each quote in them doubled. `none` is a store
-- outside the buffer, or a size that leaves the range of the int in which it is summed.
pub mod Text
pub mod Values
pub mod Update
pub mod Insert
pub mod Select
pub mod Unset
pub mod Tests
use tcl_dbi.Base.{
  ℕ, ◌+◌, ◌-◌, Option, none, some, List, [], ◌∷◌, ◌++◌, ◌==◌, max, if◌then◌else◌, ◌>>=◌, length,
  take, drop,
}
use tcl_dbi.Memory.{Bytes, codes, c_string, alloc_int, sprintf, put_bytes}
use tcl_dbi.Memory.Cursor.{Cursor, emit}
use tcl_dbi.Params.{is_null}
use tcl_dbi.Sqlite3.Statement.{quoted, sum_lengths, emit_each, put_columns, finish}

-- countsinglequote, on the bytes that it reads
unfoldable pub count_single_quote : Bytes → ℕ
count_single_quote [] = 0
count_single_quote (c ∷ cs) = (if c == b'\'' then 1 else 0) + count_single_quote cs

-- The bytes of cpvalue between its quotes.
unfoldable pub copy_value : Bytes → Cursor → Option Cursor
unfolding put_bytes
copy_value [] c = some c
copy_value (b ∷ bs) (mem, pos) =
    put_bytes mem pos (if b == b'\'' then b ∷ b'\'' ∷ [] else b ∷ []) >>= copy_value bs

unfoldable pub cpvalue : Bytes → Cursor → Option Cursor
unfolding copy_value put_bytes
cpvalue s (mem, pos) = put_bytes mem pos (codes "'") >>= λ c.
    copy_value s c >>= λ (mem, pos). put_bytes mem pos (codes "'")

-- A value behind the text `s`: NULL for the null value, else a literal.
unfoldable pub put_value : Option Bytes → Bytes → ℕ → ℕ → Bytes → Cursor → Option Cursor
unfolding cpvalue
put_value null s step_null step v c =
    if is_null null v then emit (s ++ codes "NULL") step_null c else emit s step c >>= cpvalue v

-- The room for an argument. A length below two counts as two, so the quotes of an empty argument are
-- counted up to the byte `beyond` behind its NUL.
abbrev pub argument_room : ℕ → ℕ → Bytes → ℕ
argument_room beyond extra s =
    max 2 (length s) + extra + count_single_quote (take (max 2 (length s)) (s ++ 0 ∷ beyond ∷ []))

unfoldable pub pairs_room : ℕ → ℕ → List (Bytes × Bytes) → ℕ
pairs_room beyond extra [] = 0
pairs_room beyond extra ((f, v) ∷ fvs) =
    (argument_room beyond extra f + argument_room beyond extra v) + pairs_room beyond extra fvs

-- ` where "id" = '%s'`
abbrev pub where_id : Bytes → Bytes
where_id id = codes " where \"id\" = '" ++ (c_string id ++ codes "'")

unfoldable pub put_assignments : Option Bytes → List (Bytes × Bytes) → Cursor → Option Cursor
unfolding put_value
put_assignments null [] c = some c
put_assignments null ((f, v) ∷ fvs) c =
    put_value null (codes ", " ++ (quoted f ++ codes " = ")) (11 + length f) (7 + length f) v c
    >>= put_assignments null fvs

abbrev pub set_size : ℕ → Bytes → Bytes → List (Bytes × Bytes) → ℕ
set_size beyond table id fvs = 36 + length table + length id + pairs_room beyond 5 fvs

unfoldable pub set_sql :
    ℕ → ℕ → Bytes → Bytes → Option Bytes → Bytes × Bytes → List (Bytes × Bytes) → Option Bytes
unfolding put_value put_assignments pairs_room
set_sql junk beyond table id null (f, v) fvs =
    alloc_int junk (set_size beyond table id ((f, v) ∷ fvs)) >>= λ buffer.
    put_value null
      (codes "update " ++ (quoted table ++ (codes " set " ++ (quoted f ++ codes " = "))))
      (23 + length table + length f) (19 + length table + length f) v (buffer, 0)
    >>= λ c. put_assignments null fvs c >>= finish (where_id id)

unfoldable pub put_names : List (Bytes × Bytes) → Cursor → Option Cursor
put_names [] c = some c
put_names ((f, v) ∷ fvs) c = emit (b',' ∷ quoted f) (3 + length f) c >>= put_names fvs

unfoldable pub put_values : Option Bytes → List (Bytes × Bytes) → Cursor → Option Cursor
unfolding put_value
put_values null [] c = some c
put_values null ((f, v) ∷ fvs) c = put_value null (codes ",") 5 1 v c >>= put_values null fvs

-- An id given apart: its room, its name and its value.
abbrev pub id_room : Option Bytes → ℕ
id_room none = 0
id_room (some id) = 5 + 3 + length id

abbrev pub put_id_name : Option Bytes → Cursor → Option Cursor
put_id_name none c = some c
put_id_name (some id) c = emit (codes ",\"id\"") 5 c

abbrev pub put_id : Option Bytes → Cursor → Option Cursor
put_id none c = some c
put_id (some id) c = emit (codes ",'" ++ (c_string id ++ codes "'")) (3 + length id) c

abbrev pub insert_size : ℕ → Bytes → Option Bytes → List (Bytes × Bytes) → ℕ
insert_size beyond table id fvs = 31 + length table + pairs_room beyond 3 fvs + id_room id

unfoldable pub insert_sql :
    ℕ
    → ℕ
    → Bytes
    → Option Bytes
    → Option Bytes
    → Bytes × Bytes
    → List (Bytes × Bytes)
    → Option Bytes
unfolding put_value put_names put_values pairs_room
insert_sql junk beyond table id null (f, v) fvs =
    alloc_int junk (insert_size beyond table id ((f, v) ∷ fvs)) >>= λ buffer.
    emit (codes "insert into " ++ (quoted table ++ (codes " (" ++ quoted f)))
      (18 + length table + length f) (buffer, 0)
    >>= λ c. put_names fvs c >>= λ c. put_id_name id c >>= λ c.
        put_value null (codes ") values (") 14 10 v c >>= λ c. put_values null fvs c >>= λ c.
        put_id id c >>= λ (mem, pos).
        put_bytes mem pos (b')' ∷ 0 ∷ []) >>= λ (mem, _). some (c_string mem)

abbrev pub get_size : Bytes → Bytes → List Bytes → ℕ
get_size table id fs = 33 + length table + length id + sum_lengths 3 fs

unfoldable pub get_sql : ℕ → Bytes → Bytes → List Bytes → Option Bytes
unfolding sum_lengths put_columns
get_sql junk table id [] = alloc_int junk (get_size table id []) >>= λ buffer.
    finish (codes "select * from " ++ (quoted table ++ where_id id)) (buffer, 0)
get_sql junk table id (f ∷ fs) = alloc_int junk (get_size table id (f ∷ fs)) >>= λ buffer.
    sprintf buffer 0 (codes "select ") >>= λ mem. put_bytes mem 7 (b'"' ∷ (f ++ b'"' ∷ [])) >>= λ c.
    put_columns fs c >>= finish (codes " from " ++ (quoted table ++ where_id id))

unfoldable pub delete_sql : ℕ → Bytes → Bytes → Option Bytes
delete_sql junk table id = alloc_int junk (31 + length table + length id) >>= λ buffer.
    finish (codes "delete from " ++ (quoted table ++ where_id id)) (buffer, 0)

abbrev pub unset_size : Bytes → Bytes → List Bytes → ℕ
unset_size table id fs = 36 + length table + length id + sum_lengths 5 fs

-- The loop of unset starts at its third field.
unfoldable pub unset_sql : ℕ → Bytes → Bytes → Bytes → List Bytes → Option Bytes
unfolding sum_lengths emit_each
unset_sql junk table id f fs = alloc_int junk (unset_size table id (f ∷ fs)) >>= λ buffer.
    emit (codes "update " ++ (quoted table ++ (codes " set " ++ (quoted f ++ codes " = NULL"))))
      (23 + length table + length f) (buffer, 0)
    >>= λ c.
        emit_each (λ g. codes ", " ++ (quoted g ++ codes " = NULL")) (λ g. 11 + length g)
          (drop 1 fs) c
        >>= finish (where_id id)
