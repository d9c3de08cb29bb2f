-- ===== src/Sqlite/Statement/Select.antt =====
-- get and delete: the buffers are large enough, and hold the SQL texts of `Text` in the end.
use tcl_dbi.Base.{
  ℕ, ◌+◌, ◌≤◌, ◌≡◌, refl, subst, some, List, [], ◌∷◌, ◌++◌, arith, length, length-append,
}
use tcl_dbi.Memory.{IsInt, alloc_int-alloc, Bytes, codes, NoNul, AllNoNul, alloc}
use tcl_dbi.Memory.Yields
use tcl_dbi.Memory.Yields.{Yields, yields, eq_some}
use tcl_dbi.Memory.Cursor.{
  put_bytes-Filled, sprintf-Filled, NoNul-append, alloc-Filled, c_string-NoNul,
}
use tcl_dbi.Sqlite3.Statement.{finish, sum_lengths}
use tcl_dbi.Sqlite3.Statement.Text.{ident, join}
use tcl_dbi.Sqlite3.Statement.Loops.{
  flat, flat-each, length-flat, NoNul-flat, NoNul-ident, finish-Yields, length-ident,
}
use tcl_dbi.Sqlite3.Statement.Select.{put_columns-Filled}
use tcl_dbi.Sqlite.Statement.{get_size, get_sql, delete_sql}
use tcl_dbi.Sqlite.Statement.Text.{on_id, select_text, delete_text}

pub length-on_id : (id : Bytes) → length (on_id id) ≡ 16 + length id
length-on_id id = omega (arith, length-append id (codes "'"))

pub NoNul-on_id : (id : Bytes) → NoNul id → NoNul (on_id id)
NoNul-on_id id h = NoNul-append id (codes "'") h refl

abbrev tail_text : Bytes → Bytes → Bytes
tail_text table id = codes " from " ++ (ident table ++ on_id id)

-- The columns as the loop writes them, the first one apart.
abbrev columns_text : Bytes → List Bytes → Bytes
columns_text f fs = (codes "select " ++ ident f) ++ flat (λ g. codes "," ++ ident g) fs

select-eq :
    (table id f : Bytes) (fs : List Bytes)
    → columns_text f fs ++ tail_text table id ≡ select_text table id (f ∷ fs)
unfolding join
select-eq table id f fs = rw (flat-each (codes ",") ident fs)

select-NoNul :
    (table id f : Bytes) (fs : List Bytes)
    → NoNul table
    → NoNul id
    → AllNoNul (f ∷ fs)
    → NoNul (columns_text f fs ++ tail_text table id)
select-NoNul table id f fs h i clean =
    NoNul-append (columns_text f fs) (tail_text table id)
      (NoNul-append (ident f) (flat (λ g. codes "," ++ ident g) fs)
        (NoNul-append f (codes "\"") (ground arith) refl)
        (NoNul-flat _ (λ g k. NoNul-append g (codes "\"") k refl) fs (ground arith)))
      (NoNul-ident table (on_id id) h (NoNul-on_id id i))

module _ (junk : ℕ) (table id : Bytes) (table_clean : NoNul table) (id_clean : NoNul id) where
  whole_row :
      (pre : Bytes) (cap : ℕ)
      → NoNul pre
      → length pre + 19 + length table + length id ≤ cap
      → Yields
          (λ r. r ≡ pre ++ (ident table ++ on_id id))
          (finish (pre ++ (ident table ++ on_id id)) (alloc junk cap, 0))
  whole_row pre cap h room =
      finish-Yields (pre ++ (ident table ++ on_id id)) (alloc-Filled junk cap)
        (omega (
          arith,
          length-append pre (ident table ++ on_id id),
          length-ident table (on_id id),
          length-on_id id,
        ))
        (NoNul-append pre (ident table ++ on_id id) h
          (NoNul-ident table (on_id id) table_clean (NoNul-on_id id id_clean)))

  get_some :
      (f : Bytes) (fs : List Bytes)
      → AllNoNul (f ∷ fs)
      → IsInt (get_size table id (f ∷ fs))
      → get_sql junk table id (f ∷ fs) ≡ some (select_text table id (f ∷ fs))
  unfolding get_sql sum_lengths
  get_some f fs clean int =
      rw
        (
          alloc_int-alloc junk (get_size table id (f ∷ fs)) int,
          c_string-NoNul table table_clean,
          c_string-NoNul id id_clean,
        )
        (eq_some (
          Yields.bind (sprintf-Filled (codes "select ") (alloc-Filled junk _) (omega arith))
            λ mem F.
              Yields.bind (put_bytes-Filled (codes "select ") (ident f) F (omega (arith, l))) λ c G.
                Yields.bind
                  (put_columns-Filled (codes "select " ++ ident f) fs G (omega (arith, l, m)))
                  λ c' H.
                    subst (λ t. Yields (λ r. r ≡ t) (finish (tail_text table id) c'))
                      (select-eq table id f fs)
                      (finish-Yields (tail_text table id) H (omega (arith, l, m, n, k))
                        (select-NoNul table id f fs table_clean id_clean clean))))
    where
      l : length (ident f) ≡ 2 + length f
      l = omega (arith, length-append f (codes "\""))

      m : length (flat (λ g. codes "," ++ ident g) fs) ≡ sum_lengths 3 fs
      m = length-flat _ 3 (λ g. omega (arith, length-append g (codes "\""))) fs

      n : length (tail_text table id) ≡ 24 + length table + length id
      n = omega (arith, length-ident table (on_id id), length-on_id id)

      k :
          length (columns_text f fs)
          ≡ 7 + length (ident f) + length (flat (λ g. codes "," ++ ident g) fs)
      k = omega (arith, length-append (ident f) (flat (λ g. codes "," ++ ident g) fs))

  pub get_text :
      (fs : List Bytes)
      → AllNoNul fs
      → IsInt (get_size table id fs)
      → get_sql junk table id fs ≡ some (select_text table id fs)
  unfolding get_sql
  get_text [] clean int =
      rw
        (
          alloc_int-alloc junk (get_size table id []) int,
          c_string-NoNul table table_clean,
          c_string-NoNul id id_clean,
        )
        (eq_some (whole_row (codes "select * from ") _ refl (omega arith)))
  get_text (f ∷ fs) clean int = get_some f fs clean int

  -- For texts with no NUL byte whose sizes are in the range of an int, get and delete write only
  -- inside their buffers. The text that get hands to SQLite is `select "f","g",... from "table"
  -- where "id" = 'id'`, with `*` where no field is named, and that of delete `delete from "table"
  -- where "id" = 'id'`.
  pub get_delete_texts :
      (fs : List Bytes)
      → AllNoNul fs
      → IsInt (get_size table id fs)
      → IsInt (31 + length table + length id)
      → (get_sql junk table id fs ≡ some (select_text table id fs))
        × (delete_sql junk table id ≡ some (delete_text table id))
  unfolding delete_sql
  get_delete_texts fs clean int int' = (
    get_text fs clean int,
    rw (alloc_int-alloc junk _ int', c_string-NoNul table table_clean, c_string-NoNul id id_clean)
        (eq_some (whole_row (codes "delete from ") _ refl (omega arith))),
  )
