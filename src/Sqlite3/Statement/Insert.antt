-- ===== src/Sqlite3/Statement/Insert.antt =====
-- insert: the buffer is large enough, and holds the SQL text of `Text` in the end.
use tcl_dbi.Base.{
  ℕ, ◌+◌, ◌≤◌, ◌<◌, ◌≡◌, refl, ◌∙◌, Option, none, some, List, [], ◌∷◌, ◌++◌, map, append_assoc,
  append-nil, map-append, arith, length, length-append,
}
use tcl_dbi.Memory.{IsInt, alloc_int-alloc, Bytes, codes, NoNul, AllNoNul}
use tcl_dbi.Memory.Yields
use tcl_dbi.Memory.Yields.{Yields, yields, eq_some}
use tcl_dbi.Memory.Cursor.{
  Cursor, Filled, emit-Filled, alloc-Filled, put_bytes-Filled, c_string-Filled, c_string-NoNul,
  NoNul-append,
}
use tcl_dbi.Sqlite3.Statement.{
  insert_size, insert_sql, sum_lengths, sum_lengths_min2, emit_if_id, id_room,
}
use tcl_dbi.Sqlite3.Statement.Text.{ident, each, join, insert_text, with_id}
use tcl_dbi.Sqlite3.Statement.Loops.{
  flat, flat-each, length-flat, sum_lengths-le-min2, NoNul-flat, emit_each-Filled, NoNul-ident,
  length-ident,
}

pub each-append :
    (sep : Bytes) (xs ys : List Bytes) → each sep (xs ++ ys) ≡ each sep xs ++ each sep ys
unfolding each
each-append sep [] ys = refl
each-append sep (x ∷ xs) ys = rw (each-append sep xs ys) (simp append_assoc)

abbrev pub if_id : Option Bytes → Bytes → Bytes
if_id none s = []
if_id (some _) s = s

emit_if_id-Filled :
    {cap : ℕ} (text : Bytes) (id : Option Bytes) (s : Bytes) (step : ℕ) {c : Cursor}
    → Filled cap text c
    → step ≡ length s
    → length text + length s < cap
    → Yields (Filled cap (text ++ if_id id s)) (emit_if_id id s step c)
emit_if_id-Filled text none s step f e h = rw append-nil (yields f)
emit_if_id-Filled text (some _) s step f e h = emit-Filled s step f e h

-- One item for each name, and one for the id.
items-eq :
    (id : Option Bytes) (h : Bytes → Bytes) (fs : List Bytes)
    → flat (λ g. codes "," ++ h g) fs ++ if_id id (codes "," ++ h (codes "id"))
      ≡ each (codes ",") (map h (with_id id fs))
unfolding each
items-eq none h fs = rw append-nil (flat-each (codes ",") h fs)
items-eq (some _) h fs = rw (map-append, each-append, flat-each (codes ",") h fs, append-nil) refl

with_id-cons :
    (id : Option Bytes) (f : Bytes) (fs : List Bytes) → with_id id (f ∷ fs) ≡ f ∷ with_id id fs
with_id-cons none f fs = refl
with_id-cons (some _) f fs = refl

-- What the statement holds, with the names, the id's name and their placeholders as they are written.
abbrev head_text : Bytes → Bytes → Bytes
head_text table f = codes "insert into " ++ (ident table ++ (codes " (" ++ ident f))

abbrev written : Bytes → Bytes → Bytes → Bytes → Bytes → Bytes → Bytes
written table f names id_name marks id_mark =
    ((((head_text table f ++ names) ++ id_name) ++ codes ") values (?") ++ marks) ++ id_mark

written-regroup :
    (table f names id_name marks id_mark : Bytes)
    → written table f names id_name marks id_mark ++ codes ")"
      ≡ codes "insert into "
        ++ (ident table
            ++ (codes " ("
                ++ ((ident f ++ (names ++ id_name))
                    ++ (codes ") values (" ++ ((codes "?" ++ (marks ++ id_mark)) ++ codes ")")))))
written-regroup table f names id_name marks id_mark = simp append_assoc

NoNul-head_text : (table f : Bytes) → NoNul table → NoNul f → NoNul (head_text table f)
NoNul-head_text table f h k =
    NoNul-ident table (codes " (" ++ ident f) h (NoNul-append f (codes "\"") k refl)

pub NoNul-if_id : (id : Option Bytes) (s : Bytes) → NoNul s → NoNul (if_id id s)
NoNul-if_id none s h = refl
NoNul-if_id (some _) s h = h

length-if_id :
    (id : Option Bytes)
    → length (if_id id (codes ",\"id\"")) + length (if_id id (codes ",?")) ≤ id_room id
length-if_id none = omega arith
length-if_id (some i) = omega arith

length-head_text : (table f : Bytes) → length (head_text table f) ≡ 18 + length table + length f
length-head_text table f =
    omega (arith, length-ident table (codes " (" ++ ident f), length-append f (codes "\""))

sum_lengths_add :
    (fs : List Bytes) → sum_lengths 3 fs + length (flat (λ _. codes ",?") fs) ≡ sum_lengths 5 fs
unfolding sum_lengths flat
sum_lengths_add [] = refl
sum_lengths_add (f ∷ fs) = omega (arith, sum_lengths_add fs)

module _ (id : Option Bytes) (table f : Bytes) (fs : List Bytes) where
  abbrev names : Bytes
  names = flat (λ g. codes "," ++ ident g) fs

  abbrev marks : Bytes
  marks = flat (λ _. codes "," ++ codes "?") fs

  abbrev whole : Bytes
  whole = written table f names (if_id id (codes ",\"id\"")) marks (if_id id (codes ",?"))

  insert-eq : whole ++ codes ")" ≡ insert_text table (with_id id (f ∷ fs))
  unfolding join
  insert-eq =
      written-regroup table f names _ marks _
      ∙ rw (with_id-cons id f fs, items-eq id ident fs, items-eq id (λ _. codes "?") fs)

  insert-NoNul : NoNul table → AllNoNul (f ∷ fs) → NoNul (whole ++ codes ")")
  insert-NoNul h clean =
      NoNul-append whole (codes ")")
        (NoNul-append (((head ++ names) ++ id_name) ++ codes ") values (?" ++ marks) id_mark
          (NoNul-append (((head ++ names) ++ id_name) ++ codes ") values (?") marks
            (NoNul-append ((head ++ names) ++ id_name) (codes ") values (?")
              (NoNul-append (head ++ names) id_name
                (NoNul-append head names (NoNul-head_text table f h (ground arith))
                  (NoNul-flat _ (λ g k. NoNul-append g (codes "\"") k refl) fs (ground arith)))
                (NoNul-if_id id _ refl))
              refl)
            (NoNul-flat (λ _. codes ",?") (λ g k. refl) fs (ground arith)))
          (NoNul-if_id id _ refl))
        refl
    where
      head : Bytes
      head = head_text table f

      id_name : Bytes
      id_name = if_id id (codes ",\"id\"")

      id_mark : Bytes
      id_mark = if_id id (codes ",?")

module _ (junk : ℕ) (table : Bytes) (id : Option Bytes) (f : Bytes) (fs : List Bytes)
    (table_clean : NoNul table) (clean : AllNoNul (f ∷ fs))
    (int : IsInt (insert_size table id f fs)) where
  -- For names with no NUL byte, where the size of the buffer is in the range of the int in which it
  -- is summed, insert writes only inside its buffer, and the text that it hands to SQLite is
  -- `insert into "table" ("f","g",...) values (?,?,...)` with one `?` for each name; where the id
  -- is given apart, `"id"` is the last of the names.
  pub insert_sql-insert_text :
      insert_sql junk table id f fs ≡ some (insert_text table (with_id id (f ∷ fs)))
  unfolding insert_sql sum_lengths_min2
  insert_sql-insert_text =
      rw
        (
          alloc_int-alloc junk (insert_size table id f fs) int,
          c_string-NoNul table table_clean,
          c_string-NoNul f (ground arith),
        )
        (eq_some (
          Yields.bind
            (emit-Filled (head_text table f) _ (alloc-Filled junk _) (omega (arith, h))
              (omega (arith, h, r)))
            λ c C.
              Yields.bind
                (emit_each-Filled _ (λ g. codes "," ++ ident g) _ (λ g k. rw (c_string-NoNul g k))
                  (λ g. omega (arith, length-append g (codes "\""))) (head_text table f) fs
                  (ground arith) C (omega (arith, h, r, m)))
                λ c C.
                  Yields.bind
                    (emit_if_id-Filled _ id (codes ",\"id\"") 5 C refl (omega (arith, r, l1)))
                    λ c C.
                      Yields.bind
                        (emit-Filled (codes ") values (?") 11 C refl (omega (arith, r, l1, l2, i)))
                        λ c C.
                          Yields.bind
                            (emit_each-Filled _ (λ _. codes ",?") _ (λ g k. refl) (λ g. refl) _ fs
                              (ground arith) C (omega (arith, r, l1, l2, l3, i)))
                            λ c C.
                              Yields.bind
                                (emit_if_id-Filled _ id (codes ",?") 2 C refl
                                  (omega (arith, r, l1, l2, l3, l4, i)))
                                λ c C.
                                  Yields.bind
                                    (put_bytes-Filled _ (codes ")" ++ 0 ∷ []) C
                                      (omega (arith, r, l1, l2, l3, l4, l5, i)))
                                    λ c C. yields (
                                      c_string-Filled (whole id table f fs) (codes ")") C
                                        (insert-NoNul id table f fs table_clean clean)
                                      ∙ insert-eq id table f fs)))
    where
      head : Bytes
      head = head_text table f

      names' : Bytes
      names' = names id table f fs

      marks' : Bytes
      marks' = marks id table f fs

      id_name : Bytes
      id_name = if_id id (codes ",\"id\"")

      h : length head ≡ 18 + length table + length f
      h = length-head_text table f

      r : sum_lengths 3 fs + length marks' ≤ sum_lengths_min2 5 fs
      r = omega (arith, sum_lengths_add fs, sum_lengths-le-min2 5 fs)

      m : length names' ≡ sum_lengths 3 fs
      m =
          length-flat (λ g. codes "," ++ ident g) 3
            (λ g. omega (arith, length-append g (codes "\""))) fs

      l1 : length (head ++ names') ≡ 18 + length table + length f + sum_lengths 3 fs
      l1 = omega (arith, h, m, length-append head names')

      l2 : length ((head ++ names') ++ id_name) ≡ length (head ++ names') + length id_name
      l2 = length-append (head ++ names') id_name

      l3 :
          length (((head ++ names') ++ id_name) ++ codes ") values (?")
          ≡ length ((head ++ names') ++ id_name) + 11
      l3 = length-append ((head ++ names') ++ id_name) (codes ") values (?")

      l4 :
          length ((((head ++ names') ++ id_name) ++ codes ") values (?") ++ marks')
          ≡ length (((head ++ names') ++ id_name) ++ codes ") values (?") + length marks'
      l4 = length-append (((head ++ names') ++ id_name) ++ codes ") values (?") marks'

      l5 :
          length (whole id table f fs)
          ≡ length ((((head ++ names') ++ id_name) ++ codes ") values (?") ++ marks')
            + length (if_id id (codes ",?"))
      l5 =
          length-append ((((head ++ names') ++ id_name) ++ codes ") values (?") ++ marks')
            (if_id id (codes ",?"))

      i : length id_name + length (if_id id (codes ",?")) ≤ id_room id
      i = length-if_id id
