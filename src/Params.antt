-- ===== src/Params.antt =====
-- Parameters in an SQL text: the search for `?` and the replacement of each by a quoted value. The
-- backends mysql, postgresql and sqlite have the same code, the functions `..._ParseStatement` and
-- `..._InsertParam` of mysql/generic/mysql.c, postgresql/generic/postgresql.c and
-- sqlite/generic/sqlite.c; they differ in the size of the first buffer. Texts hold no NUL byte, as
-- Tcl's strings do not, so a `strncpy` stores the bytes that it is given.
pub mod Parse
pub mod Text
pub mod Insert
pub mod Exec
pub mod Tests
use tcl_dbi.Base.{
  ℕ, zero, suc, ◌+◌, ◌-◌, Bool, true, false, Option, none, some, List, [], ◌∷◌, ◌++◌, ◌==◌, ◌&&◌,
  ◌||◌, ltb, max, if◌then◌else◌, ◌>>=◌, length, take, drop,
}
use tcl_dbi.Memory.{bytes_eq, Bytes, codes, c_string, alloc, write}
use tcl_dbi.Sqlite3.Session.{}

-- Where the loop of ParseStatement stands: in the text, behind a slash, in a comment, in a literal
-- with its delimiter, or behind a backslash in a literal.
pub data Mode : Type 0 where
  text slash comment line_comment : Mode
  literal escaped : ℕ → Mode

-- `src[i+1]`, the terminating NUL behind the last byte
abbrev pub peek : Bytes → ℕ
peek [] = 0
peek (c ∷ cs) = c

unfoldable pub next : Mode → ℕ → ℕ → Mode
next text c d = if c == b'/' then slash else if (c == b'\'') || (c == b'"') then literal c else text
next slash c d = if c == b'*' then comment else if c == b'/' then line_comment else text
next comment c d = if (c == b'*') && (d == b'/') then text else comment
next line_comment c d = if (c == b'\n') || (c == b'/') then text else line_comment
next (literal q) c d = if c == b'\\' then escaped q else if c == q then text else literal q
next (escaped q) c d = literal q

unfoldable pub marks : Mode → ℕ → Bool
marks text c = c == b'?'
marks _ c = false

-- The loop from place `i` on.
unfoldable pub scan : Mode → ℕ → Bytes → List ℕ
unfolding next marks
scan m i [] = []
scan m i (c ∷ cs) =
    let rest = scan (next m c (peek cs)) (suc i) cs in if marks m c then i ∷ rest else rest

-- ParseStatement: the places of the parameters
unfoldable pub parse_statement : Bytes → List ℕ
unfolding scan
parse_statement src = scan text 0 src

-- The buffer of InsertParam with its cursor, and the variable `size`.
pub record Buffer : Type 0 where
  pub mem : Bytes
  pub size : ℕ
  pub pos : ℕ

unfoldable pub realloc : ℕ → ℕ → Bytes → Bytes
realloc junk n mem = take n mem ++ alloc junk (n - length mem)

unfoldable pub put : Bytes → Buffer → Option Buffer
put s b = write b.mem b.pos s >>= λ mem. some (record b { mem = mem; pos = b.pos + length s })

-- `if (count > 4) {size += 1; ... Tcl_Realloc(sqlstring,size) ...}`
unfoldable pub grow : ℕ → ℕ → Buffer → Buffer
unfolding realloc
grow junk count b =
    if ltb 4 count then record b { mem = realloc junk (b.size + 1) b.mem; size = b.size + 1 } else b

-- The value between its quotes, by the parts between the quotes in it; `part` is the part so far.
unfoldable pub put_parts : ℕ → ℕ → Bytes → Bytes → Buffer → Option Buffer
unfolding put grow
put_parts junk count part [] b = put part b
put_parts junk count part (c ∷ cs) b = elim (c == b'\'') [
  | false ↦ put_parts junk count (part ++ c ∷ []) cs b
  | true ↦ put part (grow junk (suc count) b) >>= λ b.
      put (codes "''") b >>= λ b. put_parts junk (suc count) [] cs b
]

abbrev pub is_null : Option Bytes → Bytes → Bool
is_null none arg = false
is_null (some null) arg = bytes_eq arg null

unfoldable pub put_param : ℕ → Option Bytes → Bytes → Buffer → Option Buffer
unfolding put_parts
put_param junk null arg b =
    if is_null null arg
    then put (codes "NULL") b
    else put (codes "'") b >>= λ b. put_parts junk 0 [] arg b >>= put (codes "'")

abbrev pub slice : ℕ → ℕ → Bytes → Bytes
slice a b s = take (b - a) (drop a s)

-- The loop over the values; a value without a place copies a negative number of bytes.
unfoldable pub put_each :
    ℕ → Bytes → Option Bytes → ℕ → List ℕ → List Bytes → Buffer → Option (ℕ × Buffer)
unfolding put_param
put_each junk cmd null prv ps [] b = some (prv, b)
put_each junk cmd null prv [] (o ∷ os) b = none
put_each junk cmd null prv (p ∷ ps) (o ∷ os) b = put (slice prv p cmd) b >>= λ b.
    put_param junk null o b >>= put_each junk cmd null (suc p) ps os

unfoldable pub room : List Bytes → ℕ
room [] = 0
room (o ∷ os) = max 2 (length o) + 6 + room os

abbrev ending : Bytes → ℕ × Buffer → Option (Bytes × ℕ)
ending cmd (prv, b) = write b.mem b.pos (drop prv cmd ++ 0 ∷ []) >>= λ mem.
    some (c_string mem, b.pos + length (drop prv cmd))

-- InsertParam on a first buffer of `size + extra` bytes: the text and its length
unfoldable pub insert_param :
    ℕ → ℕ → Bytes → List ℕ → Option Bytes → List Bytes → Option (Bytes × ℕ)
unfolding put_each room
insert_param extra junk cmd ps null os =
    let size = length cmd + room os in
    put_each junk cmd null 0 ps os
      (record { mem = alloc junk (size + extra); size = size; pos = 0 })
    >>= ending cmd

-- What exec hands to the database, with its length; mysql does so for a text without `;`.
pub data Query : Type 0 where
  wrong_number fault : Query
  run : Bytes → ℕ → Query

abbrev run_inserted : Option (Bytes × ℕ) → Query
run_inserted none = fault
run_inserted (some (t, n)) = run t n

unfoldable pub with_values : ℕ → ℕ → Bytes → List ℕ → Option Bytes → List Bytes → Query
unfolding insert_param
with_values extra junk cmd ps null [] = run cmd (length cmd)
with_values extra junk cmd ps null (o ∷ os) =
    run_inserted (insert_param extra junk cmd ps null (o ∷ os))

unfoldable pub query : ℕ → ℕ → Bytes → Option Bytes → List Bytes → Query
unfolding with_values parse_statement
query extra junk cmd null os =
    let ps = parse_statement cmd in
    if length os == length ps then with_values extra junk cmd ps null os else wrong_number

-- The three backends. The loops of ParseStatement in postgresql and sqlite lack the tests at the end
-- of the text, and stop at the NUL behind it instead: the places are the same.
abbrev pub postgresql_parse_statement : Bytes → List ℕ
postgresql_parse_statement = parse_statement

abbrev pub sqlite_parse_statement : Bytes → List ℕ
sqlite_parse_statement = parse_statement

abbrev pub mysql_insert_param : ℕ → Bytes → List ℕ → Option Bytes → List Bytes → Option (Bytes × ℕ)
mysql_insert_param = insert_param 1

abbrev pub postgresql_insert_param :
    ℕ → Bytes → List ℕ → Option Bytes → List Bytes → Option (Bytes × ℕ)
postgresql_insert_param = insert_param 0

abbrev pub sqlite_insert_param : ℕ → Bytes → List ℕ → Option Bytes → List Bytes → Option (Bytes × ℕ)
sqlite_insert_param = insert_param 0

unfoldable pub postgresql_query : ℕ → Bytes → Option Bytes → List Bytes → Query
unfolding query
postgresql_query = query 0

unfoldable pub sqlite_query : ℕ → Bytes → Option Bytes → List Bytes → Query
unfolding query
sqlite_query = query 0
