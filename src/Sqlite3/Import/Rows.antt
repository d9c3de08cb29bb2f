-- ===== src/Sqlite3/Import/Rows.antt =====
-- A table written to a file is imported row by row.
use tcl_dbi.Base.{
  ℕ, suc, ◌+◌, ◌-◌, ◌<◌, ◌≤◌, ◌≡◌, refl, sym, ap, ◌∙◌, Bool, true, false, List, [], ◌∷◌, ◌++◌, ◌==◌,
  ◌&&◌, leb, length, arith, append-nil, append_assoc, length-append, le→ltb, lt→ltb, leb→le,
}
use tcl_dbi.Memory.{Bytes, NoNul, no_nul, codes}
use tcl_dbi.Sqlite3.Host.{Stmt, History, step, reset, finalize, exec}
use tcl_dbi.Sqlite3.Import.{
  got, Format, all_lines, too_many_columns, local_getline, columns, bind_columns, with_line,
  insert_lines, import_lines, ended,
}
use tcl_dbi.Sqlite3.Import.Reading.{break_line, first_line, no_newline, local_getline-first_line}
use tcl_dbi.Sqlite3.Import.Columns.{joined, all_lack, columns-joined, columns-excess}

-- The rows of a table, each on a line of its own.
abbrev pub written : Bytes → List (List Bytes) → Bytes
written separator [] = []
written separator (row ∷ rows) = joined separator row ++ 10 ∷ written separator rows

-- Bytes that can stand in a line.
abbrev pub is_text : Bytes → Bool
is_text s = no_nul s && no_newline s

abbrev pub all_text : List Bytes → Bool
all_text [] = true
all_text (c ∷ cs) = is_text c && all_text cs

abbrev is_nonempty : List Bytes → Bool
is_nonempty [] = false
is_nonempty (c ∷ cs) = true

-- A row that can be written as a line with a separator that starts with `b`: at least one column,
-- and no NUL, newline or `b` in any.
abbrev pub is_row : ℕ → List Bytes → Bool
is_row b row = is_nonempty row && (all_lack b row && all_text row)

-- Each is such a row of at most `count` columns.
abbrev pub are_rows : ℕ → ℕ → List (List Bytes) → Bool
are_rows b count [] = true
are_rows b count (row ∷ rows) = is_row b row && (leb (length row) count && are_rows b count rows)

text-append : (s t : Bytes) → is_text s ≡ true → is_text t ≡ true → is_text (s ++ t) ≡ true
text-append [] t h g = g
text-append (c ∷ cs) t h g =
    let e : is_text (cs ++ t) ≡ true = text-append cs t (ground arith) g in ground arith

nul-append : (s t : Bytes) → NoNul s → NoNul t → NoNul (s ++ t)
nul-append [] t h g = g
nul-append (c ∷ cs) t h g =
    let e : no_nul (cs ++ t) ≡ true = nul-append cs t (ground arith) g in ground arith

joined-text :
    (separator : Bytes) (row : List Bytes)
    → is_text separator ≡ true
    → all_text row ≡ true
    → is_text (joined separator row) ≡ true
joined-text separator [] h g = refl
joined-text separator (c ∷ []) h g = ground arith
joined-text separator (c ∷ d ∷ cs) h g =
    text-append c (separator ++ joined separator (d ∷ cs)) (ground arith) (
      text-append separator (joined separator (d ∷ cs)) h
        (joined-text separator (d ∷ cs) h (ground arith)))

break_line-text : (s rest : Bytes) → is_text s ≡ true → break_line (s ++ 10 ∷ rest) ≡ (s, rest)
break_line-text [] rest h = refl
break_line-text (c ∷ cs) rest h =
    let other : (c == 10) ≡ false = ground arith in
    rw (other, break_line-text cs rest (ground arith)) refl

first_line-text : (s rest : Bytes) → is_text s ≡ true → first_line (s ++ 10 ∷ rest) ≡ got s rest
first_line-text [] rest h = refl
first_line-text (c ∷ cs) rest h = rw (break_line-text (c ∷ cs) rest h) refl

-- The line of a row is read back.
read_row :
    (separator : Bytes) (row : List Bytes) (rest : Bytes)
    → is_text separator ≡ true
    → all_text row ≡ true
    → NoNul rest
    → local_getline (joined separator row ++ 10 ∷ rest) ≡ got (joined separator row) rest
read_row separator row rest h g n =
    let text = joined-text separator row h g in
    local_getline-first_line (joined separator row ++ 10 ∷ rest)
      (nul-append (joined separator row) (10 ∷ rest) (ground arith) n)
    ∙ first_line-text (joined separator row) rest text

abbrev pub format : ℕ → Bytes → Bytes → ℕ → Format
format b separator null count = record { separator = b ∷ separator; null = null; count = count }

-- Each row in turn: its columns are bound, those that it does not have as null, and it is stepped.
abbrev pub row_calls : Format → Stmt → List (List Bytes) → History → History
row_calls q stmt [] calls = calls
row_calls q stmt (row ∷ rows) calls =
    row_calls q stmt rows (reset stmt ∷ step stmt ∷ bind_columns stmt q.null 1 q.count row calls)

row_columns :
    (b : ℕ) (separator : Bytes) (count : ℕ) (row : List Bytes)
    → is_row b row ≡ true
    → length row ≤ count
    → (columns (b ∷ separator) count 0 0 (joined (b ∷ separator) row)).0 ≡ row
      × (columns (b ∷ separator) count 0 0 (joined (b ∷ separator) row)).1 + 1 ≡ length row
row_columns b separator count [] h g = absurd (ground arith)
row_columns b separator count (c ∷ cs) h g =
    let e = columns-joined b separator count 0 c cs (ground arith) (omega arith) in
    (ap (λ (r : List Bytes × ℕ). r.0) e, ap (λ (r : List Bytes × ℕ). r.1 + 1) e ∙ omega arith)

-- reset accepts every row
module _ (reset_accepts : History → Bool)
    (accepts : (calls : History) → reset_accepts calls ≡ true) where
  insert_one :
      (b : ℕ) (separator null : Bytes) (count : ℕ) (stmt : Stmt) (f lineno : ℕ) (row : List Bytes)
      (rest : Bytes) (calls : History)
      → is_text (b ∷ separator) ≡ true
      → is_row b row ≡ true
      → length row ≤ count
      → NoNul rest
      → insert_lines reset_accepts
          (suc f)
          (format b separator null count)
          stmt
          lineno
          (joined (b ∷ separator) row ++ 10 ∷ rest)
          calls
        ≡ insert_lines reset_accepts f
            (format b separator null count)
            stmt
            (lineno + 1)
            rest
            (reset stmt ∷ step stmt ∷ bind_columns stmt null 1 count row calls)
  unfolding insert_lines
  insert_one b separator null count stmt f lineno row rest calls t h g n =
      let q = format b separator null count in
      let (a, k) = row_columns b separator count row h g in
      ap
        (λ l.
          with_line reset_accepts q stmt lineno (insert_lines reset_accepts f q stmt (lineno + 1)) l
            calls)
        (read_row (b ∷ separator) row rest t (ground arith) n)
      ∙ rw (k, le→ltb count (length row) g, a, accepts) refl

  written-NoNul :
      (b : ℕ) (separator : Bytes) (count : ℕ) (rows : List (List Bytes)) (tail : Bytes)
      → is_text (b ∷ separator) ≡ true
      → are_rows b count rows ≡ true
      → NoNul tail
      → NoNul (written (b ∷ separator) rows ++ tail)
  written-NoNul b separator count [] tail t h n = n
  written-NoNul b separator count (row ∷ rows) tail t h n =
      let text = joined-text (b ∷ separator) row t (ground arith) in
      let rest : NoNul (written (b ∷ separator) rows ++ tail) =
        written-NoNul b separator count rows tail t (ground arith) n in
      rw (append_assoc) (
        nul-append (joined (b ∷ separator) row) (10 ∷ written (b ∷ separator) rows ++ tail)
          (ground arith) rest)

  insert_rows :
      (b : ℕ) (separator null : Bytes) (count : ℕ) (stmt : Stmt) (f lineno : ℕ)
      (rows : List (List Bytes)) (tail : Bytes) (calls : History)
      → is_text (b ∷ separator) ≡ true
      → are_rows b count rows ≡ true
      → NoNul tail
      → insert_lines reset_accepts
          (length rows + f)
          (format b separator null count)
          stmt
          lineno
          (written (b ∷ separator) rows ++ tail)
          calls
        ≡ insert_lines reset_accepts f
            (format b separator null count)
            stmt
            (lineno + length rows)
            tail
            (row_calls (format b separator null count) stmt rows calls)
  insert_rows b separator null count stmt f lineno [] tail calls t h n =
      let e : 0 + f ≡ f = omega arith in let k : lineno + 0 ≡ lineno = omega arith in rw (e, k) refl
  insert_rows b separator null count stmt f lineno (row ∷ rows) tail calls t h n =
      let e : suc (length rows) + f ≡ suc (length rows + f) = omega arith in
      let k : lineno + 1 + length rows ≡ lineno + suc (length rows) = omega arith in
      let short : length row ≤ count = leb→le (length row) count (ground arith) in
      let rest = written (b ∷ separator) rows ++ tail in
      let q = format b separator null count in
      let after = reset stmt ∷ step stmt ∷ bind_columns stmt null 1 count row calls in
      ap
        (λ m.
          insert_lines reset_accepts m q stmt lineno (written (b ∷ separator) (row ∷ rows) ++ tail)
            calls)
        e
      ∙ ap (λ file. insert_lines reset_accepts (suc (length rows + f)) q stmt lineno file calls)
          (append_assoc (joined (b ∷ separator) row) (10 ∷ written (b ∷ separator) rows) tail)
      ∙ insert_one b separator null count stmt (length rows + f) lineno row rest calls t
          (ground arith) short (written-NoNul b separator count rows tail t (ground arith) n)
      ∙ insert_rows b separator null count stmt f (lineno + 1) rows tail after t (ground arith) n
      ∙ ap (λ l. insert_lines reset_accepts f q stmt l tail (row_calls q stmt rows after)) k

  rows-shorter :
      (separator : Bytes) (rows : List (List Bytes)) (tail : Bytes)
      → length rows + length tail ≤ length (written separator rows ++ tail)
  rows-shorter separator [] tail = omega arith
  rows-shorter separator (row ∷ rows) tail =
      let rest = written separator rows ++ tail in
      let e = append_assoc (joined separator row) (10 ∷ written separator rows) tail in
      rw e (
        omega (
          arith,
          length-append (joined separator row) (10 ∷ rest),
          rows-shorter separator rows tail,
        ))

  -- The fuel that is left behind the rows.
  rows_fuel :
      (separator : Bytes) (rows : List (List Bytes)) (tail : Bytes)
      → (f : ℕ) × (length (written separator rows ++ tail) + 1 ≡ length rows + suc f)
  rows_fuel separator rows tail = (
    length (written separator rows ++ tail) - length rows,
    omega (arith, rows-shorter separator rows tail),
  )

  insert_end :
      (q : Format) (stmt : Stmt) (f lineno : ℕ) (calls : History)
      → insert_lines reset_accepts (suc f) q stmt lineno [] calls ≡ (all_lines lineno, calls)
  unfolding insert_lines
  insert_end q stmt f lineno calls =
      ap
        (λ line.
          with_line reset_accepts q stmt lineno (insert_lines reset_accepts f q stmt (lineno + 1))
            line calls)
        (local_getline-first_line [] refl)

  row-NoNul :
      (b : ℕ) (separator : Bytes) (row : List Bytes)
      → is_text (b ∷ separator) ≡ true
      → is_row b row ≡ true
      → NoNul (joined (b ∷ separator) row)
  row-NoNul b separator row t g =
      let text = joined-text (b ∷ separator) row t (ground arith) in ground arith

  insert_excess :
      (b : ℕ) (separator null : Bytes) (count : ℕ) (stmt : Stmt) (f lineno : ℕ) (row : List Bytes)
      (tail : Bytes) (calls : History)
      → is_text (b ∷ separator) ≡ true
      → is_row b row ≡ true
      → 0 < count
      → count < length row
      → NoNul tail
      → insert_lines reset_accepts
          (suc f)
          (format b separator null count)
          stmt
          lineno
          (joined (b ∷ separator) row ++ 10 ∷ tail)
          calls
        ≡ (too_many_columns (lineno + 1), calls)
  unfolding insert_lines
  insert_excess b separator null count stmt f lineno [] tail calls t g p l n = absurd (omega arith)
  insert_excess b separator null count stmt f lineno (c ∷ cs) tail calls t g p l n =
      let q = format b separator null count in
      let many : count ≤ (columns (b ∷ separator) count 0 0 (joined (b ∷ separator) (c ∷ cs))).1 =
        columns-excess b separator count 0 c cs (ground arith) p (omega arith) in
      ap
        (λ line.
          with_line reset_accepts q stmt lineno (insert_lines reset_accepts f q stmt (lineno + 1))
            line calls)
        (read_row (b ∷ separator) (c ∷ cs) tail t (ground arith) n)
      ∙ rw
          (lt→ltb count
            ((columns (b ∷ separator) count 0 0 (joined (b ∷ separator) (c ∷ cs))).1 + 1)
            (omega arith))
          refl

  -- A table is written to a file, one row a line, its columns joined by the separator; no column has
  -- a NUL, a newline or the separator's first byte, no row is empty or has more than `count` columns.
  -- Importing the file binds each row's columns in their order, those that a row does not have as
  -- null, steps and resets the statement for each row, and commits, if each reset accepts its row.
  pub import-rows :
      (b : ℕ) (separator null : Bytes) (count : ℕ) (stmt : Stmt) (rows : List (List Bytes))
      (calls : History)
      → is_text (b ∷ separator) ≡ true
      → are_rows b count rows ≡ true
      → import_lines reset_accepts
          (format b separator null count)
          stmt
          (written (b ∷ separator) rows)
          calls
        ≡ (
          all_lines (length rows),
          exec (codes "COMMIT")
              ∷ finalize stmt
              ∷ row_calls (format b separator null count) stmt rows (exec (codes "BEGIN") ∷ calls),
        )
  unfolding import_lines
  import-rows b separator null count stmt rows calls t h =
      let q = format b separator null count in
      let begun = exec (codes "BEGIN") ∷ calls in
      let whole = append-nil (written (b ∷ separator) rows) in
      let (f, e) = rows_fuel (b ∷ separator) rows [] in
      ap (λ file. import_lines reset_accepts q stmt file calls) (sym whole)
      ∙ ap
          (λ m.
            ended stmt
              (insert_lines reset_accepts m q stmt 0 (written (b ∷ separator) rows ++ []) begun))
          e
      ∙ ap (ended stmt) (
          insert_rows b separator null count stmt (suc f) 0 rows [] begun t h refl
          ∙ insert_end q stmt f (0 + length rows) (row_calls q stmt rows begun)
          ∙ ap (λ n. (all_lines n, row_calls q stmt rows begun)) (omega arith))

  -- If a row of more than `count` columns follows, nothing of it or of what is behind it is bound:
  -- the rows before it are rolled back, and the error names its line.
  pub import-excess :
      (b : ℕ) (separator null : Bytes) (count : ℕ) (stmt : Stmt) (rows : List (List Bytes))
      (row : List Bytes) (tail : Bytes) (calls : History)
      → is_text (b ∷ separator) ≡ true
      → are_rows b count rows ≡ true
      → is_row b row ≡ true
      → 0 < count
      → count < length row
      → NoNul tail
      → import_lines reset_accepts
          (format b separator null count)
          stmt
          (written (b ∷ separator) rows ++ (joined (b ∷ separator) row ++ 10 ∷ tail))
          calls
        ≡ (
          too_many_columns (length rows + 1),
          exec (codes "ROLLBACK")
              ∷ finalize stmt
              ∷ row_calls (format b separator null count) stmt rows (exec (codes "BEGIN") ∷ calls),
        )
  unfolding import_lines
  import-excess b separator null count stmt rows row tail calls t h g p l n =
      let q = format b separator null count in
      let begun = exec (codes "BEGIN") ∷ calls in
      let last = joined (b ∷ separator) row ++ 10 ∷ tail in
      let (f, e) = rows_fuel (b ∷ separator) rows last in
      let clean =
        nul-append (joined (b ∷ separator) row) (10 ∷ tail) (row-NoNul b separator row t g) n in
      ap
        (λ m.
          ended stmt
            (insert_lines reset_accepts m q stmt 0 (written (b ∷ separator) rows ++ last) begun))
        e
      ∙ ap (ended stmt) (
          insert_rows b separator null count stmt (suc f) 0 rows last begun t h clean
          ∙ insert_excess b separator null count stmt f (0 + length rows) row tail
              (row_calls q stmt rows begun) t g p l n
          ∙ ap (λ n. (too_many_columns n, row_calls q stmt rows begun)) (omega arith))
