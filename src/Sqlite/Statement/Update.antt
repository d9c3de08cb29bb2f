-- ===== src/Sqlite/Statement/Update.antt =====
-- set: the buffer is large enough, and holds the SQL text of `Text` in the end.
use tcl_dbi.Base.{
  ℕ, ◌+◌, ◌≤◌, ◌<◌, ◌≡◌, refl, subst, ◌∙◌, Option, some, List, [], ◌∷◌, ◌++◌, append_assoc,
  append-nil, arith, length, length-append, map,
}
use tcl_dbi.Memory.{IsInt, alloc_int-alloc, Bytes, codes, NoNul}
use tcl_dbi.Memory.Yields
use tcl_dbi.Memory.Yields.{Yields, yields, eq_some}
use tcl_dbi.Memory.Cursor.{Cursor, Filled, alloc-Filled, c_string-NoNul, NoNul-append}
use tcl_dbi.Params.Text.{value_text}
use tcl_dbi.Params.Insert.{NoNul-value_text}
use tcl_dbi.Sqlite3.Statement.{finish}
use tcl_dbi.Sqlite3.Statement.Text.{ident, join, each}
use tcl_dbi.Sqlite3.Statement.Loops.{finish-Yields, length-ident, NoNul-ident}
use tcl_dbi.Sqlite.Statement.{set_size, set_sql, put_assignments, pairs_room, argument_room}
use tcl_dbi.Sqlite.Statement.Text.{on_id, assigned, set_text}
use tcl_dbi.Sqlite.Statement.Values.{
  put_value-text, value_room, chain, chain-each, PairsNoNul, NoNul-chain,
}

next_text : Option Bytes → Bytes × Bytes → Bytes
next_text null fv = codes ", " ++ assigned null fv

regroup :
    (null : Option Bytes) (f v : Bytes)
    → (codes ", " ++ (ident f ++ codes " = ")) ++ value_text null v ≡ next_text null (f, v)
unfolding next_text
regroup null f v = simp append_assoc

length-pre : (f : Bytes) → length (codes ", " ++ (ident f ++ codes " = ")) ≡ 7 + length f
length-pre f = omega (arith, length-ident f (codes " = "))

length-next_text :
    (beyond : ℕ) (null : Option Bytes) (f v : Bytes)
    → length (next_text null (f, v)) ≤ argument_room beyond 5 f + argument_room beyond 5 v
length-next_text beyond null f v =
    subst (λ t. length t ≤ argument_room beyond 5 f + argument_room beyond 5 v) (regroup null f v)
      (omega (
        arith,
        length-append (codes ", " ++ (ident f ++ codes " = ")) (value_text null v),
        length-pre f,
        value_room beyond 3 null v,
      ))

chain_room :
    (beyond : ℕ) (null : Option Bytes) (fvs : List (Bytes × Bytes))
    → length (chain (next_text null) fvs) ≤ pairs_room beyond 5 fvs
unfolding chain pairs_room
chain_room beyond null [] = omega arith
chain_room beyond null ((f, v) ∷ fvs) = omega (
  arith,
  length-append (next_text null (f, v)) (chain (next_text null) fvs),
  length-next_text beyond null f v,
  chain_room beyond null fvs,
)

pairs-room :
    (beyond : ℕ) (null : Option Bytes) (f v : Bytes) (fvs : List (Bytes × Bytes))
    → 8 + length f + length (value_text null v) + length (chain (next_text null) fvs)
      ≤ pairs_room beyond 5 ((f, v) ∷ fvs)
unfolding pairs_room
pairs-room beyond null f v fvs =
    omega (arith, value_room beyond 3 null v, chain_room beyond null fvs)

put_assignments-Filled :
    {cap : ℕ} (text : Bytes) (null : Option Bytes) (fvs : List (Bytes × Bytes)) {c : Cursor}
    → PairsNoNul fvs
    → Filled cap text c
    → length text + length (chain (next_text null) fvs) < cap
    → Yields (Filled cap (text ++ chain (next_text null) fvs)) (put_assignments null fvs c)
unfolding put_assignments chain
put_assignments-Filled text null [] clean f h = rw append-nil (yields f)
put_assignments-Filled text null ((g, v) ∷ fvs) clean f h =
    let n = length-append (next_text null (g, v)) (chain (next_text null) fvs) in
    rw (c_string-NoNul g (ground arith), ← append_assoc text)
      (Yields.bind
        (put_value-text text null (codes ", " ++ (ident g ++ codes " = ")) _ _ v _
          (regroup null g v) f (omega (arith, length-pre g)) (omega (arith, length-pre g))
          (omega (arith, h, n)))
        λ c' f'.
          put_assignments-Filled (text ++ next_text null (g, v)) null fvs (ground arith) f'
            (omega (arith, h, n, length-append text (next_text null (g, v)))))

NoNul-next_text :
    (null : Option Bytes) (f v : Bytes) → NoNul f → NoNul v → NoNul (next_text null (f, v))
unfolding next_text
NoNul-next_text null f v h k =
    NoNul-ident f (codes " = " ++ value_text null v) h (NoNul-value_text null v k)

set_regroup :
    (table id f value t : Bytes)
    → ((codes "update " ++ (ident table ++ (codes " set " ++ (ident f ++ codes " = ")))) ++ value)
        ++ t
        ++ on_id id
      ≡ codes "update "
        ++ (ident table
            ++ (codes " set " ++ (((ident f ++ (codes " = " ++ value)) ++ t) ++ on_id id)))
set_regroup table id f value t = simp append_assoc

next_text_lem :
    (null : Option Bytes) (fvs : List (Bytes × Bytes))
    → chain (next_text null) fvs ≡ each (codes ", ") (map (assigned null) fvs)
unfolding next_text
next_text_lem null fvs = chain-each (codes ", ") (assigned null) fvs

module _ (table id : Bytes) (null : Option Bytes) (f v : Bytes) (fvs : List (Bytes × Bytes)) where
  abbrev pre : Bytes
  pre = codes "update " ++ (ident table ++ (codes " set " ++ (ident f ++ codes " = ")))

  abbrev whole : Bytes
  whole = (pre ++ value_text null v) ++ chain (next_text null) fvs

  whole-eq : whole ++ on_id id ≡ set_text table id null ((f, v) ∷ fvs)
  unfolding join
  whole-eq =
      set_regroup table id f (value_text null v) (chain (next_text null) fvs)
      ∙ rw (next_text_lem null fvs) refl

  length-pre_text : length pre ≡ 19 + length table + length f
  length-pre_text = omega (
    arith,
    length-ident table (codes " set " ++ (ident f ++ codes " = ")),
    length-ident f (codes " = "),
  )

  whole-NoNul : NoNul table → NoNul id → PairsNoNul ((f, v) ∷ fvs) → NoNul (whole ++ on_id id)
  whole-NoNul t i clean =
      NoNul-append whole (on_id id)
        (NoNul-append (pre ++ value_text null v) (chain (next_text null) fvs)
          (NoNul-append pre (value_text null v)
            (NoNul-ident table (codes " set " ++ (ident f ++ codes " = ")) t
              (NoNul-ident f (codes " = ") (ground arith) refl))
            (NoNul-value_text null v (ground arith)))
          (NoNul-chain (next_text null) (NoNul-next_text null) fvs (ground arith)))
        (NoNul-append id (codes "'") i refl)

-- For texts with no NUL byte, where the size of the buffer is in the range of the int in which it
-- is summed, set writes only inside its buffer, and the text that it hands to SQLite is `update
-- "table" set "f" = 'v', "g" = 'w', ... where "id" = 'id'`, with each quote in a value doubled and
-- NULL for a value that is the null value. The id is put between quotes as it is.
pub set_sql-set_text :
    (junk beyond : ℕ) (table id : Bytes) (null : Option Bytes) (f v : Bytes)
    (fvs : List (Bytes × Bytes))
    → NoNul table
    → NoNul id
    → PairsNoNul ((f, v) ∷ fvs)
    → IsInt (set_size beyond table id ((f, v) ∷ fvs))
    → set_sql junk beyond table id null (f, v) fvs ≡ some (set_text table id null ((f, v) ∷ fvs))
unfolding set_sql
set_sql-set_text junk beyond table id null f v fvs t i clean int =
    rw
      (
        alloc_int-alloc junk (set_size beyond table id ((f, v) ∷ fvs)) int,
        c_string-NoNul table t,
        c_string-NoNul id i,
        c_string-NoNul f (ground arith),
      )
      (eq_some (
        Yields.bind
          (put_value-text [] null (pre table id null f v fvs) _ _ v _ refl (alloc-Filled junk _)
            (omega (arith, l)) (omega (arith, l)) (omega (arith, l, r, n)))
          λ c' f'.
            Yields.bind
              (put_assignments-Filled _ null fvs (ground arith) f' (omega (arith, l, r, n)))
              λ c'' f''.
                subst (λ t. Yields (λ r. r ≡ t) (finish (on_id id) c''))
                  (whole-eq table id null f v fvs)
                  (finish-Yields (on_id id) f''
                    (omega (arith, l, r, n, k, length-append id (codes "'")))
                    (whole-NoNul table id null f v fvs t i clean))))
  where
    l : length (pre table id null f v fvs) ≡ 19 + length table + length f
    l = length-pre_text table id null f v fvs

    r :
        8 + length f + length (value_text null v) + length (chain (next_text null) fvs)
        ≤ pairs_room beyond 5 ((f, v) ∷ fvs)
    r = pairs-room beyond null f v fvs

    n :
        length (pre table id null f v fvs ++ value_text null v)
        ≡ length (pre table id null f v fvs) + length (value_text null v)
    n = length-append (pre table id null f v fvs) (value_text null v)

    k :
        length (whole table id null f v fvs)
        ≡ length (pre table id null f v fvs ++ value_text null v)
          + length (chain (next_text null) fvs)
    k = length-append (pre table id null f v fvs ++ value_text null v) (chain (next_text null) fvs)
