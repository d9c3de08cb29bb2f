-- ===== src/Sqlite/Statement/Insert.antt =====
-- insert: the buffer is large enough, and holds the SQL text of `Text` in the end.
use tcl_dbi.Base.{
  ℕ, ◌+◌, ◌≤◌, ◌<◌, ◌≡◌, refl, ◌∙◌, Option, none, some, List, [], ◌∷◌, ◌++◌, map, append_assoc,
  append-nil, arith, length, length-append,
}
use tcl_dbi.Memory.{IsInt, alloc_int-alloc, Bytes, codes, NoNul}
use tcl_dbi.Memory.Yields
use tcl_dbi.Memory.Yields.{Yields, yields, eq_some}
use tcl_dbi.Memory.Cursor.{
  Cursor, Filled, emit-Filled, alloc-Filled, put_bytes-Filled, c_string-Filled, c_string-NoNul,
  NoNul-append,
}
use tcl_dbi.Params.Text.{value_text}
use tcl_dbi.Params.Insert.{NoNul-value_text}
use tcl_dbi.Sqlite3.Statement.Text.{ident, each, join}
use tcl_dbi.Sqlite3.Statement.Insert.{each-append}
use tcl_dbi.Sqlite3.Statement.Loops.{length-ident, NoNul-ident}
use tcl_dbi.Sqlite.Statement.{
  insert_size, insert_sql, put_names, put_values, put_id_name, put_id, id_room, pairs_room,
}
use tcl_dbi.Sqlite.Statement.Text.{names_of, values_of, insert_text}
use tcl_dbi.Sqlite.Statement.Values.{
  put_value-text, value_room, chain, chain-each, PairsNoNul, NoNul-chain,
}

name_text : Bytes × Bytes → Bytes
name_text fv = codes "," ++ ident fv.0

next_value : Option Bytes → Bytes × Bytes → Bytes
next_value null fv = codes "," ++ value_text null fv.1

abbrev id_name : Option Bytes → Bytes
id_name none = []
id_name (some id) = codes ",\"id\""

abbrev id_value : Option Bytes → Bytes
id_value none = []
id_value (some id) = codes ",'" ++ (id ++ codes "'")

abbrev pub IdNoNul : Option Bytes → Type 0
IdNoNul none = Unit {0}
IdNoNul (some id) = NoNul id

put_names-Filled :
    {cap : ℕ} (text : Bytes) (fvs : List (Bytes × Bytes)) {c : Cursor}
    → PairsNoNul fvs
    → Filled cap text c
    → length text + length (chain name_text fvs) < cap
    → Yields (Filled cap (text ++ chain name_text fvs)) (put_names fvs c)
unfolding put_names chain name_text
put_names-Filled text [] clean f h = rw append-nil (yields f)
put_names-Filled text ((g, v) ∷ fvs) clean f h =
    let n = length-append (name_text (g, v)) (chain name_text fvs) in
    let m = length-append g (codes "\"") in
    rw (c_string-NoNul g (ground arith), ← append_assoc text)
      (Yields.bind
        (emit-Filled (name_text (g, v)) (3 + length g) f (omega (arith, m)) (omega (arith, h, n)))
        λ c' f'.
          put_names-Filled (text ++ name_text (g, v)) fvs (ground arith) f'
            (omega (arith, h, n, length-append text (name_text (g, v)))))

put_values-Filled :
    {cap : ℕ} (text : Bytes) (null : Option Bytes) (fvs : List (Bytes × Bytes)) {c : Cursor}
    → Filled cap text c
    → length text + length (chain (next_value null) fvs) < cap
    → Yields (Filled cap (text ++ chain (next_value null) fvs)) (put_values null fvs c)
unfolding put_values chain next_value
put_values-Filled text null [] f h = rw append-nil (yields f)
put_values-Filled text null ((g, v) ∷ fvs) f h =
    let n = length-append (next_value null (g, v)) (chain (next_value null) fvs) in
    rw (← append_assoc text) (
      Yields.bind
        (put_value-text text null (codes ",") 5 1 v (next_value null (g, v)) refl f refl refl
          (omega (arith, h, n)))
        λ c' f'.
          put_values-Filled (text ++ next_value null (g, v)) null fvs f'
            (omega (arith, h, n, length-append text (next_value null (g, v)))))

put_id_name-Filled :
    {cap : ℕ} (text : Bytes) (id : Option Bytes) {c : Cursor}
    → Filled cap text c
    → length text + length (id_name id) < cap
    → Yields (Filled cap (text ++ id_name id)) (put_id_name id c)
put_id_name-Filled text none f h = rw append-nil (yields f)
put_id_name-Filled text (some id) f h = emit-Filled (codes ",\"id\"") 5 f refl h

put_id-Filled :
    {cap : ℕ} (text : Bytes) (id : Option Bytes) {c : Cursor}
    → IdNoNul id
    → Filled cap text c
    → length text + length (id_value id) < cap
    → Yields (Filled cap (text ++ id_value id)) (put_id id c)
put_id-Filled text none clean f h = rw append-nil (yields f)
put_id-Filled text (some id) clean f h = rw (c_string-NoNul id clean) (
    emit-Filled (codes ",'" ++ (id ++ codes "'")) (3 + length id) f
      (omega (arith, length-append id (codes "'"))) h)

-- The room for the names and the values of the loops.
chain_room :
    (beyond : ℕ) (null : Option Bytes) (fvs : List (Bytes × Bytes))
    → length (chain name_text fvs) + length (chain (next_value null) fvs) ≤ pairs_room beyond 3 fvs
unfolding chain pairs_room name_text next_value
chain_room beyond null [] = omega arith
chain_room beyond null ((f, v) ∷ fvs) = omega (
  arith,
  length-append (name_text (f, v)) (chain name_text fvs),
  length-append (next_value null (f, v)) (chain (next_value null) fvs),
  length-append f (codes "\""),
  value_room beyond 1 null v,
  chain_room beyond null fvs,
)

id_fits : (id : Option Bytes) → length (id_name id) + length (id_value id) ≤ id_room id
id_fits none = omega arith
id_fits (some id) = omega (arith, length-append id (codes "'"))

names-eq :
    (id : Option Bytes) (f v : Bytes) (fvs : List (Bytes × Bytes))
    → ident f ++ (chain name_text fvs ++ id_name id) ≡ join (codes ",") (names_of id ((f, v) ∷ fvs))
unfolding join name_text each
names-eq none f v fvs =
    rw (append-nil, chain-each (codes ",") (λ (fv : Bytes × Bytes). ident fv.0) fvs)
names-eq (some id) f v fvs =
    rw
      (
        chain-each (codes ",") (λ (fv : Bytes × Bytes). ident fv.0) fvs,
        each-append (codes ",") (map (λ (fv : Bytes × Bytes). ident fv.0) fvs)
            (ident (codes "id") ∷ []),
      )
      refl

values-eq :
    (id null : Option Bytes) (f v : Bytes) (fvs : List (Bytes × Bytes))
    → value_text null v ++ (chain (next_value null) fvs ++ id_value id)
      ≡ join (codes ",") (values_of id null ((f, v) ∷ fvs))
unfolding join next_value each
values-eq none null f v fvs =
    rw (append-nil, chain-each (codes ",") (λ (fv : Bytes × Bytes). value_text null fv.1) fvs)
values-eq (some id) null f v fvs =
    rw
      (
        chain-each (codes ",") (λ (fv : Bytes × Bytes). value_text null fv.1) fvs,
        each-append (codes ",") (map (λ (fv : Bytes × Bytes). value_text null fv.1) fvs)
            ((codes "'" ++ (id ++ codes "'")) ∷ []),
        append-nil,
      )
      refl

NoNul-name_text : (f v : Bytes) → NoNul f → NoNul v → NoNul (name_text (f, v))
unfolding name_text
NoNul-name_text f v h k = NoNul-append f (codes "\"") h refl

NoNul-next_value :
    (null : Option Bytes) (f v : Bytes) → NoNul f → NoNul v → NoNul (next_value null (f, v))
unfolding next_value
NoNul-next_value null f v h k = NoNul-value_text null v k

NoNul-id_name : (id : Option Bytes) → NoNul (id_name id)
NoNul-id_name none = refl
NoNul-id_name (some id) = refl

NoNul-id_value : (id : Option Bytes) → IdNoNul id → NoNul (id_value id)
NoNul-id_value none h = refl
NoNul-id_value (some id) h = NoNul-append id (codes "'") h refl

module _ (table : Bytes) (id null : Option Bytes) (f v : Bytes) (fvs : List (Bytes × Bytes)) where
  abbrev head : Bytes
  head = codes "insert into " ++ (ident table ++ (codes " (" ++ ident f))

  abbrev first : Bytes
  first = codes ") values (" ++ value_text null v

  abbrev before : Bytes
  before = (head ++ chain name_text fvs) ++ id_name id

  abbrev whole : Bytes
  whole = ((before ++ first) ++ chain (next_value null) fvs) ++ id_value id

  length-before :
      length before
      ≡ 18 + length table + length f + length (chain name_text fvs) + length (id_name id)
  length-before = omega (
    arith,
    length-append (head ++ chain name_text fvs) (id_name id),
    length-append head (chain name_text fvs),
    length-ident table (codes " (" ++ ident f),
    length-append f (codes "\""),
  )

  length-whole :
      length whole
      ≡ length before
        + 10
        + length (value_text null v)
        + length (chain (next_value null) fvs)
        + length (id_value id)
  length-whole = omega (
    arith,
    length-append ((before ++ first) ++ chain (next_value null) fvs) (id_value id),
    length-append (before ++ first) (chain (next_value null) fvs),
    length-append before first,
    length-append (codes ") values (") (value_text null v),
  )

  -- The room of the buffer, with two bytes for the end.
  whole_fits :
      (beyond : ℕ)
      → length whole + 2 ≤ 31 + length table + pairs_room beyond 3 ((f, v) ∷ fvs) + id_room id
  unfolding pairs_room
  whole_fits beyond = omega (
    arith,
    length-before,
    length-whole,
    value_room beyond 1 null v,
    chain_room beyond null fvs,
    id_fits id,
  )

  whole-eq : whole ++ codes ")" ≡ insert_text table id null ((f, v) ∷ fvs)
  whole-eq = rw (← names-eq id f v fvs, ← values-eq id null f v fvs) (simp append_assoc)

  before-NoNul : NoNul table → PairsNoNul ((f, v) ∷ fvs) → NoNul before
  before-NoNul t clean =
      NoNul-append (head ++ chain name_text fvs) (id_name id)
        (NoNul-append head (chain name_text fvs)
          (NoNul-ident table (codes " (" ++ ident f) t
            (NoNul-append f (codes "\"") (ground arith) refl))
          (NoNul-chain name_text NoNul-name_text fvs (ground arith)))
        (NoNul-id_name id)

  whole-NoNul : NoNul table → IdNoNul id → PairsNoNul ((f, v) ∷ fvs) → NoNul (whole ++ codes ")")
  whole-NoNul t i clean =
      NoNul-append whole (codes ")")
        (NoNul-append ((before ++ first) ++ chain (next_value null) fvs) (id_value id)
          (NoNul-append (before ++ first) (chain (next_value null) fvs)
            (NoNul-append before first (before-NoNul t clean)
              (NoNul-value_text null v (ground arith)))
            (NoNul-chain (next_value null) (NoNul-next_value null) fvs (ground arith)))
          (NoNul-id_value id i))
        refl

-- For texts with no NUL byte, where the size of the buffer is in the range of the int in which it
-- is summed, insert writes only inside its buffer, and the text that it hands to SQLite is `insert
-- into "table" ("f","g",...) values ('v','w',...)` with every field and its value in order, each
-- quote in a value doubled and NULL for a value that is the null value; where the id is given
-- apart, `"id"` is the last name and the id, between quotes as it is, the last value.
pub insert_sql-literals :
    (junk beyond : ℕ) (table : Bytes) (id null : Option Bytes) (f v : Bytes)
    (fvs : List (Bytes × Bytes))
    → NoNul table
    → IdNoNul id
    → PairsNoNul ((f, v) ∷ fvs)
    → IsInt (insert_size beyond table id ((f, v) ∷ fvs))
    → insert_sql junk beyond table id null (f, v) fvs
      ≡ some (insert_text table id null ((f, v) ∷ fvs))
unfolding insert_sql
insert_sql-literals junk beyond table id null f v fvs t i clean int =
    rw
      (
        alloc_int-alloc junk (insert_size beyond table id ((f, v) ∷ fvs)) int,
        c_string-NoNul table t,
        c_string-NoNul f (ground arith),
      )
      (eq_some (
        Yields.bind
          (emit-Filled (head table id null f v fvs) _ (alloc-Filled junk _) (omega (arith, h))
            (omega (arith, h, b, w, r)))
          λ c C.
            Yields.bind (put_names-Filled _ fvs (ground arith) C (omega (arith, h, b, w, r))) λ c C.
              Yields.bind (put_id_name-Filled _ id C (omega (arith, h, b, w, r, n))) λ c C.
                Yields.bind
                  (put_value-text _ null (codes ") values (") 14 10 v _ refl C refl refl
                    (omega (arith, b, w, r, k)))
                  λ c C.
                    Yields.bind (put_values-Filled _ null fvs C (omega (arith, b, w, r, k, l)))
                      λ c C.
                        Yields.bind (put_id-Filled _ id i C (omega (arith, b, w, r, k, l, m)))
                          λ c C.
                            Yields.bind
                              (put_bytes-Filled _ (codes ")" ++ 0 ∷ []) C (omega (arith, r)))
                              λ c C. yields (
                                c_string-Filled (whole table id null f v fvs) (codes ")") C
                                  (whole-NoNul table id null f v fvs t i clean)
                                ∙ whole-eq table id null f v fvs)))
  where
    head' : Bytes
    head' = head table id null f v fvs

    before' : Bytes
    before' = before table id null f v fvs

    first' : Bytes
    first' = first table id null f v fvs

    h : length head' ≡ 18 + length table + length f
    h = omega (arith, length-ident table (codes " (" ++ ident f), length-append f (codes "\""))

    b :
        length before'
        ≡ 18 + length table + length f + length (chain name_text fvs) + length (id_name id)
    b = length-before table id null f v fvs

    w :
        length (whole table id null f v fvs)
        ≡ length before'
          + 10
          + length (value_text null v)
          + length (chain (next_value null) fvs)
          + length (id_value id)
    w = length-whole table id null f v fvs

    r :
        length (whole table id null f v fvs) + 2
        ≤ 31 + length table + pairs_room beyond 3 ((f, v) ∷ fvs) + id_room id
    r = whole_fits table id null f v fvs beyond

    n : length (head' ++ chain name_text fvs) ≡ length head' + length (chain name_text fvs)
    n = length-append head' (chain name_text fvs)

    k : length first' ≡ 10 + length (value_text null v)
    k = length-append (codes ") values (") (value_text null v)

    l : length (before' ++ first') ≡ length before' + length first'
    l = length-append before' first'

    m :
        length ((before' ++ first') ++ chain (next_value null) fvs)
        ≡ length (before' ++ first') + length (chain (next_value null) fvs)
    m = length-append (before' ++ first') (chain (next_value null) fvs)
