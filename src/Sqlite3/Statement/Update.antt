-- ===== src/Sqlite3/Statement/Update.antt =====
-- set and unset: the buffers are large enough, and hold the SQL texts of `Text` in the end.
use tcl_dbi.Base.{
  ℕ, ◌+◌, ◌≤◌, ◌≡◌, refl, subst, sym, ◌∙◌, some, List, ◌∷◌, ◌++◌, append_assoc, arith, length,
  length-append, ◌>>=◌,
}
use tcl_dbi.Memory.{IsInt, alloc_int-alloc, Bytes, codes, NoNul, AllNoNul, alloc}
use tcl_dbi.Memory.Yields
use tcl_dbi.Memory.Yields.{Yields, yields, eq_some}
use tcl_dbi.Memory.Cursor.{emit, emit-Filled, alloc-Filled, c_string-NoNul, NoNul-append}
use tcl_dbi.Sqlite3.Statement.{
  set_size, set_sql, unset_sql, finish, sum_lengths, sum_lengths_min2, emit_each,
}
use tcl_dbi.Sqlite3.Statement.Text.{ident, join, on_id, update_text}
use tcl_dbi.Sqlite3.Statement.Loops.{
  flat, flat-each, length-flat, sum_lengths-le-min2, NoNul-flat, emit_each-Filled, NoNul-ident,
  finish-Yields, length-ident,
}

-- update with the text `value` behind each name
abbrev head_text : Bytes → Bytes → Bytes → Bytes
head_text value table f = codes "update " ++ (ident table ++ (codes " set " ++ (ident f ++ value)))

abbrev next_text : Bytes → Bytes → Bytes
next_text value g = codes ", " ++ (ident g ++ value)

module _ (value : Bytes) (table f : Bytes) where
  length-head_text : length (head_text value table f) ≡ 16 + length value + length table + length f
  length-head_text =
      omega (arith, length-ident table (codes " set " ++ (ident f ++ value)), length-ident f value)

  length-next_text : length (next_text value f) ≡ 4 + length value + length f
  length-next_text = omega (arith, length-ident f value)

  regroup :
      (t : Bytes)
      → (head_text value table f ++ t) ++ on_id
        ≡ codes "update "
          ++ (ident table ++ (codes " set " ++ (((ident f ++ value) ++ t) ++ on_id)))
  regroup t = simp append_assoc

module _ (value : Bytes) (nul : NoNul value) (junk cap : ℕ) (table f : Bytes) (fs : List Bytes)
    (table_clean : NoNul table) (clean : AllNoNul (f ∷ fs)) where
  update-eq :
      (head_text value table f ++ flat (next_text value) fs) ++ on_id
      ≡ update_text value table (f ∷ fs)
  unfolding join
  update-eq = regroup value table f _ ∙ rw (flat-each (codes ", ") (λ g. ident g ++ value) fs)

  update-NoNul : NoNul ((head_text value table f ++ flat (next_text value) fs) ++ on_id)
  update-NoNul =
      NoNul-append (head_text value table f ++ flat (next_text value) fs) on_id
        (NoNul-append (head_text value table f) (flat (next_text value) fs)
          (NoNul-ident table (codes " set " ++ (ident f ++ value)) table_clean
            (NoNul-ident f value (ground arith) nul))
          (NoNul-flat (next_text value) (λ g h. NoNul-ident g value h nul) fs (ground arith)))
        refl

  update_text-Yields :
      (format : Bytes → Bytes) (first : ℕ) (step : Bytes → ℕ)
      → ((g : Bytes) → NoNul g → format g ≡ next_text value g)
      → ((g : Bytes) → step g ≡ 4 + length value + length g)
      → first ≡ 16 + length value + length table + length f
      → 32 + length value + length table + length f + sum_lengths (4 + length value) fs ≤ cap
      → Yields
          (λ r. r ≡ update_text value table (f ∷ fs))
          (emit (head_text value table f) first (alloc junk cap, 0) >>= λ c.
            emit_each format step fs c >>= finish on_id)
  update_text-Yields format first step same steps e room =
      Yields.bind
        (emit-Filled (head_text value table f) first (alloc-Filled junk cap) (omega (arith, n))
          (omega (arith, n)))
        λ c F.
          Yields.bind
            (emit_each-Filled format (next_text value) step same steps' (head_text value table f) fs
              (ground arith) F (omega (arith, n, m)))
            λ c' G.
              subst (λ t. Yields (λ r. r ≡ t) (finish on_id c')) update-eq
                (finish-Yields on_id G
                  (omega (
                    arith,
                    n,
                    m,
                    length-append (head_text value table f) (flat (next_text value) fs),
                  ))
                  update-NoNul)
    where
      n : length (head_text value table f) ≡ 16 + length value + length table + length f
      n = length-head_text value table f

      m : length (flat (next_text value) fs) ≡ sum_lengths (4 + length value) fs
      m = length-flat (next_text value) (4 + length value) (length-next_text value table) fs

      steps' : (g : Bytes) → step g ≡ length (next_text value g)
      steps' g = steps g ∙ sym (length-next_text value table g)

module _ (junk : ℕ) (table id f : Bytes) (fs : List Bytes) (table_clean : NoNul table)
    (clean : AllNoNul (f ∷ fs)) where
  -- For names with no NUL byte, where the size of the buffer is in the range of the int in which it
  -- is summed, set writes only inside its buffer, and the text that it hands to SQLite is `update
  -- "table" set "f" = ?, "g" = ?, ... where "id" = ?` with every name in order.
  pub set_sql-update_text :
      IsInt (set_size table id f fs)
      → set_sql junk table id f fs ≡ some (update_text (codes " = ?") table (f ∷ fs))
  unfolding set_sql sum_lengths_min2
  set_sql-update_text int =
      rw
        (
          alloc_int-alloc junk (set_size table id f fs) int,
          c_string-NoNul table table_clean,
          c_string-NoNul f (ground arith),
        )
        (eq_some (
          update_text-Yields (codes " = ?") refl junk _ table f fs table_clean clean _ _ _
            (λ g h. rw (c_string-NoNul g h)) (λ g. refl) (omega arith)
            (omega (arith, sum_lengths-le-min2 8 fs))))

  -- For names with no NUL byte, where the size of the buffer is in the range of the int in which it
  -- is summed, unset writes only inside its buffer, and the text that it hands to SQLite is `update
  -- "table" set "f" = NULL, "g" = NULL, ... where "id" = ?`.
  pub unset_sql-update_text :
      IsInt (36 + length table + length id + sum_lengths 11 (f ∷ fs))
      → unset_sql junk table id f fs ≡ some (update_text (codes " = NULL") table (f ∷ fs))
  unfolding unset_sql sum_lengths
  unset_sql-update_text int =
      rw
        (
          alloc_int-alloc junk _ int,
          c_string-NoNul table table_clean,
          c_string-NoNul f (ground arith),
        )
        (eq_some (
          update_text-Yields (codes " = NULL") refl junk _ table f fs table_clean clean _ _ _
            (λ g h. rw (c_string-NoNul g h)) (λ g. refl) (omega arith) (omega arith)))
