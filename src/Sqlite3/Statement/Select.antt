-- ===== src/Sqlite3/Statement/Select.antt =====
-- get and delete: the buffers are large enough, and hold the SQL texts of `Text` in the end.
use tcl_dbi.Base.{
  ℕ, ◌+◌, ◌≤◌, ◌≡◌, refl, subst, some, List, [], ◌∷◌, ◌++◌, append_assoc, append-nil, arith, subst,
  length, length-append,
}
use tcl_dbi.Memory.{IsInt, alloc_int-alloc, Bytes, codes, NoNul, AllNoNul}
use tcl_dbi.Memory.Yields
use tcl_dbi.Memory.Yields.{Yields, yields, eq_some}
use tcl_dbi.Memory.Cursor.{
  put_bytes-Filled, sprintf-Filled, NoNul-append, Cursor, Filled, alloc-Filled, put_bytes-Filled,
  c_string-NoNul, NoNul-append,
}
use tcl_dbi.Sqlite3.Statement.{sum_lengths, get_sql, delete_sql, finish, sum_lengths, put_columns}
use tcl_dbi.Sqlite3.Statement.Text.{join, ident, join, on_id, select_text, delete_text}
use tcl_dbi.Sqlite3.Statement.Loops.{
  flat, flat-each, length-flat, NoNul-flat, flat, flat-each, length-flat, NoNul-flat, NoNul-ident,
  finish-Yields, length-ident,
}

-- For a table name with no NUL byte, where the size fits in the int, delete writes only inside its
-- buffer, and the text that it hands to SQLite is `delete from "table" where "id" = ?`.
pub delete_sql-delete_text :
    (junk : ℕ) (table id : Bytes)
    → NoNul table
    → IsInt (31 + length table + length id)
    → delete_sql junk table id ≡ some (delete_text table)
unfolding delete_sql
delete_sql-delete_text junk table id clean int =
    rw (alloc_int-alloc junk _ int, c_string-NoNul table clean)
      (eq_some (
        finish-Yields (delete_text table) (alloc-Filled junk _)
          (omega (arith, length-ident table on_id)) (NoNul-ident table on_id clean refl)))

pub put_columns-Filled :
    {cap : ℕ} (text : Bytes) (fs : List Bytes) {c : Cursor}
    → Filled cap text c
    → length text + length (flat (λ g. codes "," ++ ident g) fs) ≤ cap
    → Yields (Filled cap (text ++ flat (λ g. codes "," ++ ident g) fs)) (put_columns fs c)
unfolding put_columns flat
put_columns-Filled text [] f h = rw append-nil (yields f)
put_columns-Filled text (g ∷ gs) f h =
    let n = length-append (codes "," ++ ident g) (flat (λ g. codes "," ++ ident g) gs) in
    rw (← append_assoc) (
      Yields.bind (put_bytes-Filled text (codes "," ++ ident g) f (omega (arith, n))) λ c' f'.
        put_columns-Filled (text ++ (codes "," ++ ident g)) gs f'
          (omega (arith, n, length-append text (codes "," ++ ident g))))

abbrev tail_text : Bytes → Bytes
tail_text table = codes " from " ++ (ident table ++ on_id)

-- The columns as the loop writes them, the first one apart.
abbrev columns_text : Bytes → List Bytes → Bytes
columns_text f fs = (codes "select " ++ ident f) ++ flat (λ g. codes "," ++ ident g) fs

select-eq :
    (table f : Bytes) (fs : List Bytes)
    → columns_text f fs ++ tail_text table ≡ select_text table (f ∷ fs)
unfolding join
select-eq table f fs = rw (flat-each (codes ",") ident fs)

select-NoNul :
    (table f : Bytes) (fs : List Bytes)
    → NoNul table
    → AllNoNul (f ∷ fs)
    → NoNul (columns_text f fs ++ tail_text table)
select-NoNul table f fs h clean =
    NoNul-append (columns_text f fs) (tail_text table)
      (NoNul-append (ident f) (flat (λ g. codes "," ++ ident g) fs)
        (NoNul-append f (codes "\"") (ground arith) refl)
        (NoNul-flat _ (λ g k. NoNul-append g (codes "\"") k refl) fs (ground arith)))
      (NoNul-ident table on_id h refl)

module _ (junk : ℕ) (table id : Bytes) (table_clean : NoNul table) where
  get_all :
      IsInt (33 + length table + length id) → get_sql junk table id [] ≡ some (select_text table [])
  unfolding get_sql
  get_all int =
      rw (alloc_int-alloc junk _ int, c_string-NoNul table table_clean)
        (eq_some (
          finish-Yields (select_text table []) (alloc-Filled junk _)
            (omega (arith, length-ident table on_id)) (NoNul-ident table on_id table_clean refl)))

  get_some :
      (f : Bytes) (fs : List Bytes)
      → AllNoNul (f ∷ fs)
      → IsInt (33 + length table + length id + sum_lengths 3 (f ∷ fs))
      → get_sql junk table id (f ∷ fs) ≡ some (select_text table (f ∷ fs))
  unfolding get_sql sum_lengths
  get_some f fs clean int =
      rw (alloc_int-alloc junk _ int, c_string-NoNul table table_clean)
        (eq_some (
          Yields.bind (sprintf-Filled (codes "select ") (alloc-Filled junk _) (omega arith))
            λ mem F.
              Yields.bind (put_bytes-Filled (codes "select ") (ident f) F (omega (arith, l))) λ c G.
                Yields.bind
                  (put_columns-Filled (codes "select " ++ ident f) fs G (omega (arith, l, m)))
                  λ c' H.
                    subst (λ t. Yields (λ r. r ≡ t) (finish (tail_text table) c'))
                      (select-eq table f fs)
                      (finish-Yields (tail_text table) H (omega (arith, l, m, n, k))
                        (select-NoNul table f fs table_clean clean))))
    where
      l : length (ident f) ≡ 2 + length f
      l = omega (arith, length-append f (codes "\""))

      m : length (flat (λ g. codes "," ++ ident g) fs) ≡ sum_lengths 3 fs
      m = length-flat _ 3 (λ g. omega (arith, length-append g (codes "\""))) fs

      n : length (tail_text table) ≡ 23 + length table
      n = omega (arith, length-ident table on_id)

      k :
          length (columns_text f fs)
          ≡ 7 + length (ident f) + length (flat (λ g. codes "," ++ ident g) fs)
      k = omega (arith, length-append (ident f) (flat (λ g. codes "," ++ ident g) fs))

  -- For names with no NUL byte, whose size in the buffer is in the range of an int, get writes only
  -- inside its buffer, and the text that it hands to SQLite is `select "f","g",... from "table"
  -- where "id" = ?`, with `*` where no field is named.
  get_sql-select_text :
      (fs : List Bytes)
      → AllNoNul fs
      → IsInt (33 + length table + length id + sum_lengths 3 fs)
      → get_sql junk table id fs ≡ some (select_text table fs)
  unfolding sum_lengths
  get_sql-select_text [] clean int = get_all (omega arith)
  get_sql-select_text (f ∷ fs) clean int = get_some f fs clean int
