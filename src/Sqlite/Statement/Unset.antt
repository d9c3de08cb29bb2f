-- ===== src/Sqlite/Statement/Unset.antt =====
-- unset: its second field is passed over, and its buffer is too small for many fields.
use tcl_dbi.Base.{
  ℕ, ◌+◌, ◌≤◌, ◌≡◌, refl, subst, ◌∙◌, Option, none, some, List, [], ◌∷◌, ◌++◌, append_assoc,
  append-nil, arith, length, length-append, inl, inr, ltb, lt→ltb, drop, if◌then◌else◌, Bool,
  Bool-cases, ◌>>=◌, true, false, ltb→lt,
}
use tcl_dbi.Memory.{IsInt, alloc_int-alloc, Bytes, codes, NoNul, AllNoNul, sprintf, write}
use tcl_dbi.Memory.Yields
use tcl_dbi.Memory.Yields.{Yields, yields, eq_some}
use tcl_dbi.Memory.Cursor.{
  Cursor, Filled, emit, emit-Filled, alloc-Filled, c_string-NoNul, NoNul-append,
}
use tcl_dbi.Sqlite3.Statement.{emit_each, finish, sum_lengths, quoted}
use tcl_dbi.Sqlite3.Statement.Text.{ident, join}
use tcl_dbi.Sqlite3.Statement.Loops.{
  flat, flat-each, length-flat, NoNul-flat, NoNul-ident, emit_each-Filled, finish-Yields,
  length-ident,
}
use tcl_dbi.Sqlite.Statement.{unset_size, unset_sql}
use tcl_dbi.Sqlite.Statement.Text.{on_id, unset_text}
use tcl_dbi.Sqlite.Statement.Select.{length-on_id, NoNul-on_id}

-- A text that does not fit with its NUL is a store outside the buffer.
sprintf_outside :
    {cap : ℕ} {text : Bytes} (s : Bytes) {c : Cursor}
    → Filled cap text c
    → cap ≤ length text + length s
    → sprintf c.0 c.1 s ≡ none
unfolding sprintf write
sprintf_outside {cap} {text} s {c} f h =
    let n : ltb (length c.0) (c.1 + length (s ++ 0 ∷ [])) ≡ true = lt→ltb _ _ (
      rw f.holds
        (omega (arith, h, f.at, f.size, length-append s (0 ∷ []), length-append text f.rest))) in
    ground arith

-- A step that is outside the buffer, or returns what satisfies `P`.
data Tries {A : Type 0} (P : A → Type 0) : Option A → Type 0 where
  outside : Tries P none
  stored : {a : A} → P a → Tries P (some a)

tries_bind :
    {A B : Type 0} {P : A → Type 0} {Q : B → Type 0} {m : Option A} {f : A → Option B}
    → Tries P m
    → ((a : A) → P a → Tries Q (f a))
    → Tries Q (m >>= f)
tries_bind outside next = outside
tries_bind (stored p) next = next _ p

of_yields : {A : Type 0} {P : A → Type 0} {m : Option A} → Yields P m → Tries P m
of_yields (yields p) = stored p

never : {A : Type 0} {m : Option A} → Tries (λ _. ⊥) m → m ≡ none
never outside = refl
never (stored p) = absurd p

emit-Tries :
    {cap : ℕ} {text : Bytes} (s : Bytes) (step : ℕ) {c : Cursor}
    → Filled cap text c
    → step ≡ length s
    → Tries (Filled cap (text ++ s)) (emit s step c)
unfolding emit
emit-Tries {cap} {text} s step {c} f e = elim (Bool-cases (ltb (length text + length s) cap)) [
  | inl fits ↦ of_yields (emit-Filled s step f e (ltb→lt _ _ fits))
  | inr not_fits ↦ rw (sprintf_outside s f (ground arith)) outside
]

finish_outside :
    {cap : ℕ} {text : Bytes} (s : Bytes) {c : Cursor}
    → Filled cap text c
    → cap ≤ length text + length s
    → Tries (λ _. ⊥) (finish s c)
finish_outside s f h = rw (sprintf_outside s f h) outside

abbrev next_text : Bytes → Bytes
next_text g = codes ", " ++ (ident g ++ codes " = NULL")

length-next_text : (g : Bytes) → length (next_text g) ≡ 11 + length g
length-next_text g = omega (arith, length-ident g (codes " = NULL"))

emit_each-Tries :
    {cap : ℕ} (text : Bytes) (fs : List Bytes) {c : Cursor}
    → AllNoNul fs
    → Filled cap text c
    → Tries
        (Filled cap (text ++ flat next_text fs))
        (emit_each (λ g. codes ", " ++ (quoted g ++ codes " = NULL")) (λ g. 11 + length g) fs c)
unfolding emit_each flat
emit_each-Tries text [] clean f = rw append-nil (stored f)
emit_each-Tries text (g ∷ gs) clean f =
    rw (c_string-NoNul g (ground arith), ← append_assoc text)
      (tries_bind (emit-Tries (next_text g) (11 + length g) f (omega (arith, length-next_text g)))
        λ c' f'. emit_each-Tries (text ++ next_text g) gs (ground arith) f')

AllNoNul-drop : (fs : List Bytes) → AllNoNul fs → AllNoNul (drop 1 fs)
AllNoNul-drop [] h = h
AllNoNul-drop (f ∷ fs) h = ground arith

regroup :
    (table id f t : Bytes)
    → (codes "update " ++ (ident table ++ (codes " set " ++ (ident f ++ codes " = NULL"))) ++ t)
        ++ on_id id
      ≡ codes "update "
        ++ (ident table ++ (codes " set " ++ (((ident f ++ codes " = NULL") ++ t) ++ on_id id)))
regroup table id f t = simp append_assoc

module _ (junk : ℕ) (table id f : Bytes) (fs : List Bytes) where
  abbrev head : Bytes
  head = codes "update " ++ (ident table ++ (codes " set " ++ (ident f ++ codes " = NULL")))

  abbrev whole : Bytes
  whole = head ++ flat next_text (drop 1 fs)

  abbrev room : ℕ
  room = 36 + length table + length id + sum_lengths 5 (f ∷ fs)

  -- The bytes of the fields from the third on, against the room that the second and those leave.
  abbrev too_long : Bool
  too_long = ltb (1 + sum_lengths 5 fs) (sum_lengths 11 (drop 1 fs))

  whole-eq : whole ++ on_id id ≡ unset_text table id (f ∷ drop 1 fs)
  unfolding join
  whole-eq =
      regroup table id f (flat next_text (drop 1 fs))
      ∙ rw (flat-each (codes ", ") (λ g. ident g ++ codes " = NULL") (drop 1 fs))

  length-head : length head ≡ 23 + length table + length f
  length-head = omega (
    arith,
    length-ident table (codes " set " ++ (ident f ++ codes " = NULL")),
    length-ident f (codes " = NULL"),
  )

  length-whole : length whole ≡ 23 + length table + length f + sum_lengths 11 (drop 1 fs)
  length-whole = omega (
    arith,
    length-append head (flat next_text (drop 1 fs)),
    length-head,
    length-flat next_text 11 length-next_text (drop 1 fs),
  )

  whole-NoNul : NoNul table → NoNul id → AllNoNul (f ∷ fs) → NoNul (whole ++ on_id id)
  whole-NoNul t i clean =
      NoNul-append whole (on_id id)
        (NoNul-append head (flat next_text (drop 1 fs))
          (NoNul-ident table (codes " set " ++ (ident f ++ codes " = NULL")) t
            (NoNul-ident f (codes " = NULL") (ground arith) refl))
          (NoNul-flat next_text (λ g h. NoNul-ident g (codes " = NULL") h refl) (drop 1 fs)
            (AllNoNul-drop fs (ground arith))))
        (NoNul-on_id id i)

  module _ (t : NoNul table) (i : NoNul id) (clean : AllNoNul (f ∷ fs))
      (int : IsInt (unset_size table id (f ∷ fs))) where
    unset_outside : too_long ≡ true → unset_sql junk table id f fs ≡ none
    unfolding unset_sql sum_lengths
    unset_outside long =
        rw
          (
            alloc_int-alloc junk (unset_size table id (f ∷ fs)) int,
            c_string-NoNul table t,
            c_string-NoNul f (ground arith),
            c_string-NoNul id i,
          )
          (never (
            tries_bind
              (emit-Tries head (23 + length table + length f) (alloc-Filled junk _)
                (omega (arith, length-head)))
              λ c C.
                tries_bind (emit_each-Tries head (drop 1 fs) (AllNoNul-drop fs (ground arith)) C)
                  λ c' C'.
                    finish_outside (on_id id) C'
                      (omega (arith, length-whole, length-on_id id, ltb→lt _ _ long))))

    unset_inside :
        too_long ≡ false → unset_sql junk table id f fs ≡ some (unset_text table id (f ∷ drop 1 fs))
    unfolding unset_sql sum_lengths
    unset_inside fits =
        let l : sum_lengths 11 (drop 1 fs) ≤ 1 + sum_lengths 5 fs = ground arith in
        rw
          (
            alloc_int-alloc junk (unset_size table id (f ∷ fs)) int,
            c_string-NoNul table t,
            c_string-NoNul f (ground arith),
            c_string-NoNul id i,
          )
          (eq_some (
            Yields.bind
              (emit-Filled head (23 + length table + length f) (alloc-Filled junk _)
                (omega (arith, length-head)) (omega (arith, length-head)))
              λ c C.
                Yields.bind
                  (emit_each-Filled _ next_text _ (λ g k. rw (c_string-NoNul g k))
                    (λ g. omega (arith, length-next_text g)) head (drop 1 fs)
                    (AllNoNul-drop fs (ground arith)) C
                    (omega (
                      arith,
                      length-head,
                      length-flat next_text 11 length-next_text (drop 1 fs),
                      l,
                    )))
                  λ c' C'.
                    subst (λ t. Yields (λ r. r ≡ t) (finish (on_id id) c')) whole-eq
                      (finish-Yields (on_id id) C' (omega (arith, length-whole, length-on_id id, l))
                        (whole-NoNul t i clean))))

    -- For texts with no NUL byte, where the size of the buffer is in the range of the int in which it
    -- is summed, unset passes over its second field: the text that it hands to SQLite
    -- sets the first field and those from the third on to NULL. It is stored inside the buffer where
    -- the names from the third field on, with eleven bytes for each, are no longer than all names
    -- behind the first, with five bytes for each, and one byte more; else bytes are stored outside.
    pub unset_sql-unset_text : unset_sql junk table id f fs ≡ (
        if ltb (1 + sum_lengths 5 fs) (sum_lengths 11 (drop 1 fs))
        then none
        else some (unset_text table id (f ∷ drop 1 fs)))
    unset_sql-unset_text = elim (Bool-cases too_long) [
      | inl long ↦ rw long (unset_outside long)
      | inr fits ↦ rw fits (unset_inside fits)
    ]
