-- ===== src/Memory/Cursor.antt =====
-- A buffer with the cursor that the code moves over it, and the text that it holds so far.
use tcl_dbi.Base.{
  ℕ, ◌+◌, ◌≤◌, ◌<◌, ◌≡◌, refl, subst, Option, some, [], ◌∷◌, ◌++◌, append_assoc, append-nil, arith,
  ◌>>=◌, length, drop, length-append, length-drop,
}
use tcl_dbi.Memory.{Bytes, c_string, NoNul, alloc, write, sprintf, put_bytes}
use tcl_dbi.Memory.Laws.{length-alloc, write-append, sprintf-append}
use tcl_dbi.Memory.Yields
use tcl_dbi.Memory.Yields.{Yields, yields}

abbrev pub Cursor : Type 0
Cursor = Bytes × ℕ

-- `sprintf(pos, ...); pos += step;`
unfoldable pub emit : Bytes → ℕ → Cursor → Option Cursor
emit s step (mem, pos) = sprintf mem pos s >>= λ mem'. some (mem', pos + step)

-- The buffer of `cap` bytes begins with `text`, and the cursor stands behind it.
pub record Filled (cap : ℕ) (text : Bytes) (c : Cursor) : Type 0 where
  pub rest : Bytes
  pub holds : c.0 ≡ text ++ rest
  pub at : c.1 ≡ length text
  pub size : length text + length rest ≡ cap

pub alloc-Filled : (junk cap : ℕ) → Filled cap [] (alloc junk cap, 0)
alloc-Filled junk cap = record {
  rest = alloc junk cap;
  holds = refl;
  at = refl;
  size = omega (arith, length-alloc junk cap);
}

module _ {cap : ℕ} {text : Bytes} where
  pub sprintf-Filled :
      (s : Bytes) {c : Cursor}
      → Filled cap text c
      → length text + length s < cap
      → Yields (λ mem. Filled cap (text ++ s) (mem, c.1 + length s)) (sprintf c.0 c.1 s)
  sprintf-Filled s {c} f h =
      rw (f.holds, sprintf-append text f.rest s c.1 f.at (omega (arith, f.size)))
        (yields (record {
          rest = 0 ∷ drop (length s + 1) f.rest;
          holds = rw append_assoc;
          at = omega (arith, f.at, length-append text s);
          size = omega (arith, f.size, length-append text s, length-drop (length s + 1) f.rest);
        }))

  pub emit-Filled :
      (s : Bytes) (step : ℕ) {c : Cursor}
      → Filled cap text c
      → step ≡ length s
      → length text + length s < cap
      → Yields (Filled cap (text ++ s)) (emit s step c)
  unfolding emit
  emit-Filled s step {c} f e h = Yields.bind (sprintf-Filled s f h) λ mem g. rw e (yields g)

  pub write-Filled :
      (s : Bytes) {c : Cursor}
      → Filled cap text c
      → length text + length s ≤ cap
      → Yields (λ mem. Filled cap (text ++ s) (mem, c.1 + length s)) (write c.0 c.1 s)
  write-Filled s {c} f h =
      rw (f.holds, write-append text f.rest s c.1 f.at (omega (arith, f.size)))
        (yields (record {
          rest = drop (length s) f.rest;
          holds = rw append_assoc;
          at = omega (arith, f.at, length-append text s);
          size = omega (arith, f.size, length-append text s, length-drop (length s) f.rest);
        }))

-- Bytes stored one at a time need no room for a NUL.
pub put_bytes-Filled :
    {cap : ℕ} (text s : Bytes) {c : Cursor}
    → Filled cap text c
    → length text + length s ≤ cap
    → Yields (Filled cap (text ++ s)) (put_bytes c.0 c.1 s)
unfolding put_bytes
put_bytes-Filled text [] f h = rw append-nil (yields f)
put_bytes-Filled {cap} text (b ∷ bs) {c} f h =
    Yields.bind (write-Filled (b ∷ []) f (omega arith)) λ mem g.
      subst (λ t. Yields (Filled cap t) (put_bytes mem (c.1 + 1) bs))
        (append_assoc text (b ∷ []) bs)
        (put_bytes-Filled (text ++ b ∷ []) bs g (omega (arith, length-append text (b ∷ []))))

-- The text that the code reads back as a C string.
pub c_string-terminated : (s rest : Bytes) → NoNul s → c_string (s ++ 0 ∷ rest) ≡ s
unfolding c_string
c_string-terminated [] rest h = refl
c_string-terminated (b ∷ bs) rest h = ground (arith, c_string-terminated bs rest)

pub c_string-NoNul : (s : Bytes) → NoNul s → c_string s ≡ s
unfolding c_string
c_string-NoNul [] h = refl
c_string-NoNul (b ∷ bs) h = ground (arith, c_string-NoNul bs)

pub NoNul-append : (s t : Bytes) → NoNul s → NoNul t → NoNul (s ++ t)
NoNul-append [] t h k = k
NoNul-append (b ∷ bs) t h k = ground (arith, NoNul-append bs t)

module _ {cap : ℕ} {text : Bytes} where
  -- The last `sprintf`: the buffer then holds the whole text as a C string.
  pub sprintf-c_string :
      (s : Bytes) {c : Cursor}
      → Filled cap text c
      → length text + length s < cap
      → NoNul (text ++ s)
      → Yields (λ mem. c_string mem ≡ text ++ s) (sprintf c.0 c.1 s)
  sprintf-c_string s {c} f h clean =
      rw (f.holds, sprintf-append text f.rest s c.1 f.at (omega (arith, f.size)), ← append_assoc)
        (yields (c_string-terminated (text ++ s) _ clean))

-- The text, its NUL stored as a byte of its own.
pub c_string-Filled :
    {cap : ℕ} (text s : Bytes) {c : Cursor}
    → Filled cap (text ++ (s ++ 0 ∷ [])) c
    → NoNul (text ++ s)
    → c_string c.0 ≡ text ++ s
c_string-Filled text s f clean =
    rw (f.holds, ← append_assoc text s (0 ∷ []), append_assoc (text ++ s) (0 ∷ []) f.rest)
      (c_string-terminated (text ++ s) f.rest clean)

pub c_string-clean : (s : Bytes) → NoNul (c_string s)
unfolding c_string
c_string-clean [] = refl
c_string-clean (b ∷ bs) = ground (arith, c_string-clean bs)
