-- ===== src/Sqlite3/Statement/Loops.antt =====
-- The loop over the names: what it appends to the buffer, and how long that is.
use tcl_dbi.Base.{
  ℕ, ◌+◌, ◌≤◌, ◌<◌, ◌≡◌, refl, List, [], ◌∷◌, ◌++◌, map, append_assoc, append-nil, arith, length,
  length-append,
}
use tcl_dbi.Memory.{Bytes, NoNul, AllNoNul}
use tcl_dbi.Memory.Yields
use tcl_dbi.Memory.Yields.{Yields, yields}
use tcl_dbi.Memory.Cursor.{
  sprintf-c_string, Cursor, Filled, emit-Filled, c_string-NoNul, NoNul-append,
}
use tcl_dbi.Sqlite3.Statement.{finish, emit_each, quoted, sum_lengths, sum_lengths_min2}
use tcl_dbi.Sqlite3.Statement.Text.{ident, each}

unfoldable pub flat : (Bytes → Bytes) → List Bytes → Bytes
flat item [] = []
flat item (f ∷ fs) = item f ++ flat item fs

pub quoted-ident : (s : Bytes) → NoNul s → quoted s ≡ ident s
quoted-ident s h = rw (c_string-NoNul s h)

pub flat-each :
    (sep : Bytes) (h : Bytes → Bytes) (fs : List Bytes)
    → flat (λ g. sep ++ h g) fs ≡ each sep (map h fs)
unfolding flat each
flat-each sep h [] = refl
flat-each sep h (f ∷ fs) = rw (append_assoc, flat-each sep h fs)

pub length-flat :
    (item : Bytes → Bytes) (extra : ℕ)
    → ((g : Bytes) → length (item g) ≡ extra + length g)
    → (fs : List Bytes) → length (flat item fs) ≡ sum_lengths extra fs
unfolding flat sum_lengths
length-flat item extra h [] = refl
length-flat item extra h (f ∷ fs) =
    omega (arith, length-append (item f) (flat item fs), h f, length-flat item extra h fs)

pub sum_lengths-le-min2 :
    (extra : ℕ) (fs : List Bytes) → sum_lengths extra fs ≤ sum_lengths_min2 extra fs
unfolding sum_lengths sum_lengths_min2
sum_lengths-le-min2 extra [] = omega arith
sum_lengths-le-min2 extra (f ∷ fs) = omega (arith, sum_lengths-le-min2 extra fs)

pub NoNul-flat :
    (item : Bytes → Bytes)
    → ((g : Bytes) → NoNul g → NoNul (item g))
    → (fs : List Bytes) → AllNoNul fs
    → NoNul (flat item fs)
unfolding flat
NoNul-flat item h [] c = refl
NoNul-flat item h (f ∷ fs) c =
    NoNul-append (item f) (flat item fs) (h f (ground arith)) (NoNul-flat item h fs (ground arith))

pub NoNul-ident : (s t : Bytes) → NoNul s → NoNul t → NoNul (ident s ++ t)
NoNul-ident s t h k = rw append_assoc (NoNul-append s (b'"' ∷ t) h k)

pub finish-Yields :
    {cap : ℕ} {text : Bytes} (s : Bytes) {c : Cursor}
    → Filled cap text c
    → length text + length s < cap
    → NoNul (text ++ s)
    → Yields (λ r. r ≡ text ++ s) (finish s c)
finish-Yields s f h clean = Yields.bind (sprintf-c_string s f h clean) λ mem e. yields e

pub length-ident : (s t : Bytes) → length (ident s ++ t) ≡ 2 + length s + length t
length-ident s t = omega (arith, length-append (s ++ b'"' ∷ []) t, length-append s (b'"' ∷ []))

module _ {cap : ℕ} (format item : Bytes → Bytes) (step : Bytes → ℕ)
    (same : (g : Bytes) → NoNul g → format g ≡ item g)
    (steps : (g : Bytes) → step g ≡ length (item g)) where
  pub emit_each-Filled :
      (text : Bytes) (fs : List Bytes) {c : Cursor}
      → AllNoNul fs
      → Filled cap text c
      → length text + length (flat item fs) < cap
      → Yields (Filled cap (text ++ flat item fs)) (emit_each format step fs c)
  unfolding emit_each flat
  emit_each-Filled text [] clean f h = rw append-nil (yields f)
  emit_each-Filled text (g ∷ gs) clean f h =
      let n = length-append (item g) (flat item gs) in
      rw (same g (ground arith), ← append_assoc)
        (Yields.bind (emit-Filled (item g) (step g) f (steps g) (omega arith)) λ c' f'.
          emit_each-Filled (text ++ item g) gs (ground arith) f'
            (omega (arith, length-append text (item g))))
