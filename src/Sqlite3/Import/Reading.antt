-- ===== src/Sqlite3/Import/Reading.antt =====
-- local_getline reads the line at the start of the file, of any length.

use tcl_dbi.Base.{
  ℕ, zero, suc, ◌+◌, ◌-◌, ◌<◌, ◌≤◌, ◌≡◌, refl, sym, ap, ◌∙◌, Bool, true, false, not, none, some, [],
  ◌∷◌, ◌++◌, ◌==◌, ◌&&◌, length, if◌then◌else◌, arith, append-nil, append_assoc, length-append,
  Bool-cases, ◌⊎◌, inl, inr,
}
use tcl_dbi.Memory.Cursor.{c_string-NoNul}
use tcl_dbi.Memory.{Bytes, NoNul}
use tcl_dbi.Sqlite3.Import.{
  Read, got, at_end, chunk, strip_newline, is_empty, after_gets, grown, read_line, local_getline,
}

-- The line at the start and what is behind its newline.
abbrev pub break_line : Bytes → Bytes × Bytes
break_line [] = ([], [])
break_line (c ∷ cs) = if c == 10 then ([], cs) else let rest = break_line cs in (c ∷ rest.0, rest.1)

abbrev pub first_line : Bytes → Read
first_line [] = at_end
first_line (c ∷ cs) = got (break_line (c ∷ cs)).0 (break_line (c ∷ cs)).1

abbrev pub no_newline : Bytes → Bool
no_newline [] = true
no_newline (c ∷ cs) = not (c == 10) && no_newline cs

-- `text` before a file of which the line goes on.
abbrev with_text : Bytes → Bytes → Read
with_text text file = got (text ++ (break_line file).0) (break_line file).1

-- A chunk either ends the line, or holds no newline; the file is then at its end or the chunk full.
chunk-cases :
    (k : ℕ) (file : Bytes)
    → ((l : Bytes) × ((chunk k file).0 ≡ l ++ 10 ∷ [])
        × (no_newline l ≡ true)
        × (break_line file ≡ (l, (chunk k file).1)))
      ⊎ ((no_newline (chunk k file).0 ≡ true)
          × (break_line file ≡ (
            (chunk k file).0 ++ (break_line (chunk k file).1).0,
            (break_line (chunk k file).1).1,
          )))
chunk-cases zero file = inr (refl, refl)
chunk-cases (suc k) [] = inr (refl, refl)
chunk-cases (suc k) (c ∷ cs) = elim (Bool-cases (c == 10)) [
  | inl e ↦
      let ten : c ≡ 10 = ground arith in inl ([], rw e (ap (λ c. c ∷ []) ten), refl, rw e refl)
  | inr e ↦ elim (chunk-cases k cs) [
    | inl (l, a, b, f) ↦ inl (c ∷ l, rw (e, a) refl, rw e b, rw (e, f) refl)
    | inr (b, f) ↦ inr (rw (e, e) b, rw (e, f) refl)
  ]
]

chunk-NoNul : (k : ℕ) (file : Bytes) → NoNul file → NoNul (chunk k file).0 × NoNul (chunk k file).1
chunk-NoNul zero file h = (refl, h)
chunk-NoNul (suc k) [] h = (refl, refl)
chunk-NoNul (suc k) (c ∷ cs) h = elim (Bool-cases (c == 10)) [
  | inl e ↦ rw e (ground arith, ground arith)
  | inr e ↦ let (a, b) = chunk-NoNul k cs (ground arith) in rw e (ground arith, b)
]

chunk-rest : (k : ℕ) (file : Bytes) → length (chunk k file).1 ≤ length file
chunk-rest zero file = omega arith
chunk-rest (suc k) [] = omega arith
chunk-rest (suc k) (c ∷ cs) = elim (Bool-cases (c == 10)) [
  | inl e ↦ rw e (omega arith)
  | inr e ↦ rw e (omega (arith, chunk-rest k cs))
]

chunk-shorter : (k : ℕ) (c : ℕ) (cs : Bytes) → length (chunk (suc k) (c ∷ cs)).1 ≤ length cs
chunk-shorter k c cs = elim (Bool-cases (c == 10)) [
  | inl e ↦ rw e (omega arith)
  | inr e ↦ rw e (chunk-rest k cs)
]

chunk-nonempty :
    (k : ℕ) (text : Bytes) (c : ℕ) (cs : Bytes)
    → is_empty (text ++ (chunk (suc k) (c ∷ cs)).0) ≡ false
chunk-nonempty k [] c cs = elim (Bool-cases (c == 10)) [ inl e ↦ rw e refl | inr e ↦ rw e refl ]
chunk-nonempty k (t ∷ ts) c cs = refl

chunk-bounded : (k : ℕ) (file : Bytes) → length (chunk k file).0 ≤ k
chunk-bounded zero file = omega arith
chunk-bounded (suc k) [] = omega arith
chunk-bounded (suc k) (c ∷ cs) = ground (arith, chunk-bounded k cs)

strip_newline-ended : (l : Bytes) → strip_newline (l ++ 10 ∷ []) ≡ some l
strip_newline-ended [] = refl
strip_newline-ended (c ∷ []) = refl
strip_newline-ended (c ∷ d ∷ cs) = rw (strip_newline-ended (d ∷ cs)) refl

strip_newline-none : (s : Bytes) → no_newline s ≡ true → strip_newline s ≡ none
strip_newline-none [] h = refl
strip_newline-none (c ∷ []) h = ground arith
strip_newline-none (c ∷ d ∷ cs) h =
    let e : strip_newline (d ∷ cs) ≡ none = strip_newline-none (d ∷ cs) (ground arith) in rw e refl

no_newline-append :
    (s t : Bytes) → no_newline s ≡ true → no_newline t ≡ true → no_newline (s ++ t) ≡ true
no_newline-append [] t h g = g
no_newline-append (c ∷ cs) t h g =
    let e : no_newline (cs ++ t) ≡ true = no_newline-append cs t (ground arith) g in ground arith

-- The text read so far, before a file that goes on.
abbrev line_at : Bytes → Bytes → Read
line_at text [] = if is_empty text then at_end else got text []
line_at text (c ∷ cs) = with_text text (c ∷ cs)

line_at-with_text :
    (text rest : Bytes) → is_empty text ≡ false → line_at text rest ≡ with_text text rest
line_at-with_text text [] h = rw (h, append-nil) refl
line_at-with_text text (c ∷ cs) h = refl

-- One call of fgets, where the rounds after it do as they should.
chunk-with_text :
    (k : ℕ) (text : Bytes) (c : ℕ) (cs : Bytes) (next : Bytes → Bytes → Read)
    → NoNul (c ∷ cs)
    → no_newline text ≡ true
    → ((text' rest : Bytes)
        → length rest ≤ length cs
        → length text' ≤ length text + suc k
        → NoNul rest
        → no_newline text' ≡ true
        → next text' rest ≡ line_at text' rest)
    → after_gets (some (chunk (suc k) (c ∷ cs))) text next ≡ with_text text (c ∷ cs)
chunk-with_text k text c cs next n l h =
    let part = chunk (suc k) (c ∷ cs) in
    let clean = chunk-NoNul (suc k) (c ∷ cs) n in
    elim (chunk-cases (suc k) (c ∷ cs)) [
      | inl (line, a, b, f) ↦
          let e : text ++ part.0 ≡ (text ++ line) ++ 10 ∷ [] =
            ap (λ t. text ++ t) a ∙ sym (append_assoc text line (10 ∷ [])) in
          rw (c_string-NoNul part.0 clean.0, e, strip_newline-ended, f) refl
      | inr (b, f) ↦
          let open_text : no_newline (text ++ part.0) ≡ true = no_newline-append text part.0 l b in
          rw (c_string-NoNul part.0 clean.0, strip_newline-none (text ++ part.0) open_text)
            (h (text ++ part.0) part.1 (chunk-shorter k c cs)
                (omega (arith, length-append text part.0, chunk-bounded (suc k) (c ∷ cs))) clean.1
                open_text
              ∙ line_at-with_text (text ++ part.0) part.1 (chunk-nonempty k text c cs)
              ∙ rw (f, append_assoc) refl)
    ]

read_line-line_at :
    (f size : ℕ) (text file : Bytes)
    → length file < f
    → length text ≤ size
    → NoNul file
    → no_newline text ≡ true
    → read_line f size text file ≡ line_at text file
unfolding read_line
read_line-line_at zero size text file h g n l = absurd (omega arith)
read_line-line_at (suc f) size text [] h g n l = refl
read_line-line_at (suc f) size text (c ∷ cs) h g n l =
    let size' = grown size (length text) in
    let room : length text + 2 ≤ size' = ground arith in
    let k = size' - length text - 2 in
    let e : size' - length text - 1 ≡ suc k = omega arith in
    ap (λ m. after_gets (some (chunk m (c ∷ cs))) text (read_line f size')) e
    ∙ chunk-with_text k text c cs (read_line f size') n l (λ text' rest a b n' l'.
      read_line-line_at f size' text' rest (omega arith) (omega arith) n' l')

pub local_getline-first_line : (file : Bytes) → NoNul file → local_getline file ≡ first_line file
unfolding local_getline
local_getline-first_line file n =
    read_line-line_at (length file + 1) 100 [] file (omega arith) (omega arith) n refl ∙ whole file
  where
    whole : (file : Bytes) → line_at [] file ≡ first_line file
    whole [] = refl
    whole (c ∷ cs) = refl
