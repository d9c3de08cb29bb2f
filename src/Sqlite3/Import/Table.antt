-- ===== src/Sqlite3/Import/Table.antt =====
-- The whole import command on a file that holds a table.
use mathlib.Core.Path.{ap₂}
use tcl_dbi.Base.{
  ℕ, zero, suc, ◌+◌, ◌-◌, ◌≤◌, ◌≡◌, refl, sym, subst, ◌||◌, ◌⊎◌, inl, inr, ap, Bool, true, false,
  Option, none, some, List, [], ◌∷◌, ◌++◌, length, take, arith, length-append,
}
use tcl_dbi.Memory.{Bytes, bytes_eq, codes}
use tcl_dbi.Sqlite3.Host.{Host, History, Stmt, ready, prepare, finalize, exec}
use tcl_dbi.Sqlite3.Session.{Session}
use tcl_dbi.Sqlite3.Import.{Inserted}
use tcl_dbi.Sqlite3.Import.Rows.{written, is_text, are_rows, format, row_calls, import-rows}
use tcl_dbi.Sqlite3.Import.Command.{
  imported, import_end, doubled, column_list, select_text, insert_text, text_size, more_places,
  insert_statement, is_conflict, find_header, import_with, import,
}

take-whole : (n : ℕ) (s : Bytes) → length s ≤ n → take n s ≡ s
take-whole zero [] h = refl
take-whole zero (c ∷ cs) h = absurd (omega arith)
take-whole (suc n) [] h = refl
take-whole (suc n) (c ∷ cs) h = ap (λ l. c ∷ l) (take-whole n cs (omega arith))

bytes_eq_sound : (s t : Bytes) → bytes_eq s t ≡ true → s ≡ t
bytes_eq_sound [] [] h = refl
bytes_eq_sound [] (d ∷ t) h = absurd (ground arith)
bytes_eq_sound (c ∷ s) [] h = absurd (ground arith)
bytes_eq_sound (c ∷ s) (d ∷ t) h =
    let tails = bytes_eq_sound s t (ground arith) in
    let heads : c ≡ d = ground arith in ap₂ (λ a l. a ∷ l) heads tails

or_cases : (a b : Bool) → (a || b) ≡ true → (a ≡ true) ⊎ (b ≡ true)
or_cases true b h = inl refl
or_cases false b h = inr h

short_word :
    (w : Bytes) (s : Bytes) → length (doubled s) ≤ 8 → bytes_eq w s ≡ true → length (doubled w) ≤ 8
short_word w s h e = subst (λ x. length (doubled x) ≤ 8) (sym (bytes_eq_sound w s e)) h

-- A conflict word has at most 8 bytes.
word_length : (w : Bytes) → is_conflict w ≡ true → length (doubled w) ≤ 8
word_length w h = elim (or_cases _ _ h) [
  | inl e ↦ elim (or_cases _ _ e) [
    | inl e ↦ elim (or_cases _ _ e) [
      | inl e ↦ elim (or_cases _ _ e) [
        | inl e ↦ short_word w (codes "rollback") (omega arith) e
        | inr e ↦ short_word w (codes "abort") (omega arith) e
      ]
      | inr e ↦ short_word w (codes "fail") (omega arith) e
    ]
    | inr e ↦ short_word w (codes "ignore") (omega arith) e
  ]
  | inr e ↦ short_word w (codes "replace") (omega arith) e
]

insert_text-length :
    (conflict table : Bytes) (header : Option Bytes)
    → length (insert_text conflict table header)
      ≡ 27 + length (doubled conflict) + length (doubled table) + length (column_list header)
insert_text-length conflict table header =
    let end = column_list header ++ codes " VALUES(?" in
    let behind = doubled table ++ (codes "'" ++ end) in
    omega (
      arith,
      length-append (doubled conflict) (codes " INTO '" ++ behind),
      length-append (doubled table) (codes "'" ++ end),
      length-append (column_list header) (codes " VALUES(?"),
    )

text_fits :
    (conflict table : Bytes) (header : Option Bytes)
    → length (doubled conflict) ≤ 8
    → length (insert_text conflict table header) ≤ text_size table header - 1
text_fits conflict table none h =
    omega (arith, insert_text-length conflict table none, length-append (doubled table) (codes "'"))
text_fits conflict table (some header) h = omega (
  arith,
  insert_text-length conflict table (some header),
  length-append header (codes ")"),
  length-append (doubled table) (codes "'"),
)

-- The statement's text is not cut off.
insert_statement-whole :
    (conflict table : Bytes) (header : Option Bytes) (count : ℕ)
    → is_conflict conflict ≡ true
    → insert_statement conflict table header count
      ≡ insert_text conflict table header ++ (more_places (count - 1) ++ codes ")")
unfolding insert_statement
insert_statement-whole conflict table header count h =
    ap (λ t. t ++ (more_places (count - 1) ++ codes ")"))
      (take-whole (text_size table header - 1) (insert_text conflict table header)
        (text_fits conflict table header (word_length conflict h)))

module _ ⦃host : Host⦄ (open_file : Bytes → Option Bytes) (reset_accepts : History → Bool) where
  open host use {Obj, string, prepare_result, column_names}

  abbrev pub inserting : Obj → Obj → ℕ → Bytes
  inserting c t count =
      insert_text (string c) (string t) none ++ (more_places (count - 1) ++ codes ")")

  -- The session when the file is read: the columns of the table are counted, the INSERT is prepared.
  abbrev pub prepared_calls : Obj → Obj → ℕ → Stmt → History → History
  prepared_calls c t count m calls =
      prepare (inserting c t count) ∷ finalize m ∷ prepare (select_text (string t)) ∷ calls

  -- `import` of a file that holds a table: with one of the five conflict words, a separator, and a
  -- table of `k + 1` columns that SQLite knows, where the rows of the file have at most that many
  -- columns and no NUL, newline or first byte of the separator in any, and each reset accepts its
  -- row, the result is the number of rows. The INSERT is prepared whole, with a place for each
  -- column, and the rows are bound, stepped and committed in their order.
  pub import-table :
      (c t f sep : Obj) (b : ℕ) (separator : Bytes) (k : ℕ) (m n : Stmt) (left left' : Bytes)
      (rows : List (List Bytes)) (s : Session Obj)
      → ((calls : History) → reset_accepts calls ≡ true)
      → string sep ≡ b ∷ separator
      → is_text (b ∷ separator) ≡ true
      → is_conflict (string c) ≡ true
      → open_file (string f) ≡ some (written (b ∷ separator) rows)
      → prepare_result s.calls (select_text (string t)) ≡ ready m left
      → length (column_names (prepare (select_text (string t)) ∷ s.calls) m) ≡ suc k
      → prepare_result
          (finalize m ∷ prepare (select_text (string t)) ∷ s.calls)
          (inserting c t (suc k))
        ≡ ready n left'
      → are_rows b (suc k) rows ≡ true
      → import open_file reset_accepts (c ∷ t ∷ f ∷ sep ∷ []) s ≡ (
        imported (length rows),
        record s {
          calls =
              exec (codes "COMMIT")
              ∷ finalize n
              ∷ row_calls
                  (format b separator [] (suc k))
                  n
                  rows
                  (exec (codes "BEGIN") ∷ prepared_calls c t (suc k) m s.calls);
        },
      )
  unfolding import import_with find_header
  import-table c t f sep b separator k m n left left' rows s accepts e x w o p l p' r =
      let whole = insert_statement-whole (string c) (string t) none (suc k) w in
      let lines =
        import-rows reset_accepts accepts b separator [] (suc k) n rows
          (prepared_calls c t (suc k) m s.calls) x r in
      rw (e, w, o, p, l, whole, p')
        (ap (λ (done : Inserted × History). (import_end done.0, record s { calls = done.1 })) lines)
