-- ===== src/Mysql/Quotes/Pieces.antt =====
-- removequotes on texts that are made of whole pieces, and on a literal that is left open.
use tcl_dbi.Base.{
  ℕ, ◌+◌, ◌≤◌, ◌≡◌, refl, sym, ap, ◌∙◌, Bool, true, not, List, [], ◌∷◌, ◌++◌, ◌==◌, ◌&&◌, ◌||◌,
  append_assoc, arith, if◌then◌else◌, ltb, le→leb, append-nil, length, length-append,
}
use tcl_dbi.Memory.{Bytes}
use tcl_dbi.Params.{peek}
use tcl_dbi.Mysql.Quotes.{
  Mode, text, slash, comment, closing, behind, line, literal, escaped, next, stored, Removed, kept,
  outside, beyond, before, copy, remove_quotes, in_buffer, at_end,
}

-- A byte of a literal, plain or behind a backslash.
pub data Letter : Type 0 where
  plain escape : ℕ → Letter

-- The pieces of a text. A comment comes with the byte behind it, which is copied as it is.
pub data Piece : Type 0 where
  byte : ℕ → Piece
  name_quote : Piece
  division : ℕ → Piece
  c_comment : Bytes → ℕ → Piece
  line_comment : Bytes → ℕ → Piece
  quoted : List Letter → Piece

abbrev pub letter_source : List Letter → Bytes
letter_source [] = []
letter_source (plain c ∷ ls) = c ∷ letter_source ls
letter_source (escape c ∷ ls) = b'\\' ∷ c ∷ letter_source ls

abbrev pub letter_text : List Letter → Bytes
letter_text [] = []
letter_text (plain c ∷ ls) = c ∷ letter_text ls
letter_text (escape c ∷ ls) = c ∷ letter_text ls

abbrev pub source : List Piece → Bytes
source [] = []
source (byte c ∷ ps) = c ∷ source ps
source (name_quote ∷ ps) = b'"' ∷ source ps
source (division c ∷ ps) = b'/' ∷ c ∷ source ps
source (c_comment s c ∷ ps) = b'/' ∷ b'*' ∷ (s ++ b'*' ∷ b'/' ∷ c ∷ source ps)
source (line_comment s c ∷ ps) = b'/' ∷ b'/' ∷ (s ++ c ∷ source ps)
source (quoted ls ∷ ps) = b'\'' ∷ (letter_source ls ++ b'\'' ∷ source ps)

-- What is left: no double quote, no comment, no slash of a division, no backslash.
abbrev pub cleaned : List Piece → Bytes
cleaned [] = []
cleaned (byte c ∷ ps) = c ∷ cleaned ps
cleaned (name_quote ∷ ps) = cleaned ps
cleaned (division c ∷ ps) = c ∷ cleaned ps
cleaned (c_comment s c ∷ ps) = c ∷ cleaned ps
cleaned (line_comment s c ∷ ps) = c ∷ cleaned ps
cleaned (quoted ls ∷ ps) = b'\'' ∷ (letter_text ls ++ b'\'' ∷ cleaned ps)

-- No byte of the list is `c`.
abbrev pub lacks : ℕ → Bytes → Bool
lacks c [] = true
lacks c (b ∷ bs) = not (b == c) && lacks c bs

abbrev pub letters_fit : List Letter → Bool
letters_fit [] = true
letters_fit (plain c ∷ ls) = (not (c == b'\\') && not (c == b'\'')) && letters_fit ls
letters_fit (escape c ∷ ls) = letters_fit ls

abbrev pub piece_fits : Piece → Bool
piece_fits (byte c) = not (c == b'/') && (not (c == b'\'') && not (c == b'"'))
piece_fits name_quote = true
piece_fits (division c) = not (c == b'*') && not (c == b'/')
piece_fits (c_comment s c) = lacks b'*' s && not (c == b'/')
piece_fits (line_comment s c) = (lacks b'\n' s && lacks b'/' s) && ((c == b'\n') || (c == b'/'))
piece_fits (quoted ls) = letters_fit ls

abbrev pub pieces_fit : List Piece → Bool
pieces_fit [] = true
pieces_fit (p ∷ ps) = piece_fits p && pieces_fit ps

abbrev pub PiecesFit : List Piece → Type 0
PiecesFit ps = pieces_fit ps ≡ true

before-nil : (r : Removed) → before [] r ≡ r
before-nil (kept t) = refl
before-nil outside = refl
before-nil beyond = refl

before-append : (s t : Bytes) (r : Removed) → before s (before t r) ≡ before (s ++ t) r
before-append s t (kept u) = ap kept (sym (append_assoc s t u))
before-append s t outside = refl
before-append s t beyond = refl

-- One byte, by what it leads to and what is stored for it.
step :
    (m m' : Mode) (c : ℕ) (cs s : Bytes)
    → next m c (peek cs) ≡ m'
    → stored m c ≡ s
    → copy m (c ∷ cs) ≡ before s (copy m' cs)
unfolding copy
step m m' c cs s e f = rw (e, f) refl

-- A byte for which nothing is stored.
skip :
    (m m' : Mode) (c : ℕ) (cs : Bytes)
    → next m c (peek cs) ≡ m'
    → stored m c ≡ []
    → copy m (c ∷ cs) ≡ copy m' cs
skip m m' c cs e f = step m m' c cs [] e f ∙ before-nil (copy m' cs)

copy-letters :
    (ls : List Letter) (rest : Bytes)
    → letters_fit ls ≡ true
    → copy literal (letter_source ls ++ rest) ≡ before (letter_text ls) (copy literal rest)
unfolding next stored
copy-letters [] rest h = sym (before-nil (copy literal rest))
copy-letters (plain c ∷ ls) rest h =
    step literal literal c _ (c ∷ []) (ground arith) (ground arith)
    ∙ ap (before (c ∷ [])) (copy-letters ls rest (ground arith))
    ∙ before-append (c ∷ []) (letter_text ls) (copy literal rest)
copy-letters (escape c ∷ ls) rest h =
    skip literal escaped b'\\' _ refl refl
    ∙ (step escaped literal c _ (c ∷ []) refl refl
        ∙ ap (before (c ∷ [])) (copy-letters ls rest h)
        ∙ before-append (c ∷ []) (letter_text ls) (copy literal rest))

copy_comment :
    (s rest : Bytes)
    → lacks b'*' s ≡ true
    → copy comment (s ++ b'*' ∷ b'/' ∷ rest) ≡ copy behind rest
unfolding next stored
copy_comment [] rest h =
    skip comment closing b'*' (b'/' ∷ rest) refl refl ∙ skip closing behind b'/' rest refl refl
copy_comment (c ∷ s) rest h =
    skip comment comment c _ (ground arith) refl ∙ copy_comment s rest (ground arith)

copy_line :
    (s rest : Bytes)
    → (lacks b'\n' s && lacks b'/' s) ≡ true
    → copy line (s ++ rest) ≡ copy line rest
unfolding next stored
copy_line [] rest h = refl
copy_line (c ∷ s) rest h =
    skip line line c _ (ground arith) (ground arith) ∙ copy_line s rest (ground arith)

then_pieces :
    (s : Bytes) (ps : List Piece) (rest : Bytes)
    → copy text (source ps ++ rest) ≡ before (cleaned ps) (copy text rest)
    → before s (copy text (source ps ++ rest)) ≡ before (s ++ cleaned ps) (copy text rest)
then_pieces s ps rest e = ap (before s) e ∙ before-append s (cleaned ps) (copy text rest)

copy-cleaned :
    (ps : List Piece) (rest : Bytes)
    → PiecesFit ps
    → copy text (source ps ++ rest) ≡ before (cleaned ps) (copy text rest)
unfolding next stored
copy-cleaned [] rest h = sym (before-nil (copy text rest))
copy-cleaned (byte c ∷ ps) rest h =
    step text text c _ (c ∷ []) (ground arith) (ground arith)
    ∙ then_pieces (c ∷ []) ps rest (copy-cleaned ps rest (ground arith))
copy-cleaned (name_quote ∷ ps) rest h = skip text text b'"' _ refl refl ∙ copy-cleaned ps rest h
copy-cleaned (division c ∷ ps) rest h =
    skip text slash b'/' _ refl refl
    ∙ (step slash text c _ (c ∷ []) (ground arith) (ground arith)
        ∙ then_pieces (c ∷ []) ps rest (copy-cleaned ps rest (ground arith)))
copy-cleaned (c_comment s c ∷ ps) rest h =
    skip text slash b'/' _ refl refl
    ∙ (skip slash comment b'*' _ refl refl
        ∙ (rw append_assoc (copy_comment s (c ∷ (source ps ++ rest)) (ground arith))
            ∙ (step behind text c _ (c ∷ []) (ground arith) (ground arith)
                ∙ then_pieces (c ∷ []) ps rest (copy-cleaned ps rest (ground arith)))))
copy-cleaned (line_comment s c ∷ ps) rest h =
    skip text slash b'/' _ refl refl
    ∙ (skip slash line b'/' _ refl refl
        ∙ (rw append_assoc (copy_line s (c ∷ (source ps ++ rest)) (ground arith))
            ∙ (step line text c _ (c ∷ []) (ground arith) (ground arith)
                ∙ then_pieces (c ∷ []) ps rest (copy-cleaned ps rest (ground arith)))))
copy-cleaned (quoted ls ∷ ps) rest h =
    step text literal b'\'' _ (b'\'' ∷ []) refl refl
    ∙ ap (before (b'\'' ∷ [])) (
        rw append_assoc (copy-letters ls (b'\'' ∷ (source ps ++ rest)) (ground arith))
        ∙ (ap (before (letter_text ls)) (
              step literal text b'\'' _ (b'\'' ∷ []) refl refl
              ∙ then_pieces (b'\'' ∷ []) ps rest (copy-cleaned ps rest (ground arith)))
            ∙ before-append (letter_text ls) (b'\'' ∷ cleaned ps) (copy text rest)))
    ∙ before-append (b'\'' ∷ []) (letter_text ls ++ b'\'' ∷ cleaned ps) (copy text rest)

letter_text-length : (ls : List Letter) → length (letter_text ls) ≤ length (letter_source ls)
letter_text-length [] = omega arith
letter_text-length (plain c ∷ ls) = omega (arith, letter_text-length ls)
letter_text-length (escape c ∷ ls) = omega (arith, letter_text-length ls)

cleaned-length : (ps : List Piece) → length (cleaned ps) ≤ length (source ps)
cleaned-length [] = omega arith
cleaned-length (byte c ∷ ps) = omega (arith, cleaned-length ps)
cleaned-length (name_quote ∷ ps) = omega (arith, cleaned-length ps)
cleaned-length (division c ∷ ps) = omega (arith, cleaned-length ps)
cleaned-length (c_comment s c ∷ ps) =
    omega (arith, length-append s (b'*' ∷ b'/' ∷ c ∷ source ps), cleaned-length ps)
cleaned-length (line_comment s c ∷ ps) =
    omega (arith, length-append s (c ∷ source ps), cleaned-length ps)
cleaned-length (quoted ls ∷ ps) = omega (
  arith,
  length-append (letter_source ls) (b'\'' ∷ source ps),
  length-append (letter_text ls) (b'\'' ∷ cleaned ps),
  letter_text-length ls,
  cleaned-length ps,
)

fits : (cap : ℕ) (t : Bytes) → length t + 1 ≤ cap → in_buffer cap (kept t) ≡ kept t
fits cap t h = rw (le→leb _ _ h) refl

fits_iff :
    (cap m n : ℕ) (t : Bytes)
    → length t + n ≡ m + cap
    → in_buffer cap (kept t) ≡ (if ltb m n then kept t else outside)
fits_iff cap m n t h = ground arith

-- A text that is made of whole pieces, a comment with the byte behind it, is copied without its
-- double quotes, its comments, the slashes of its divisions and the backslashes of its literals,
-- and the copy stays in the buffer.
pub remove_quotes-cleaned :
    (ps : List Piece) → PiecesFit ps → remove_quotes (source ps) ≡ kept (cleaned ps)
unfolding remove_quotes at_end
remove_quotes-cleaned ps h =
    let copied : copy text (source ps) ≡ kept (cleaned ps) =
      ap (copy text) (sym (append-nil (source ps)))
      ∙ (copy-cleaned ps [] h ∙ ap kept (append-nil (cleaned ps))) in
    ap (in_buffer (length (source ps) + 1)) copied
    ∙ fits (length (source ps) + 1) (cleaned ps) (omega (arith, cleaned-length ps))

-- Whole pieces and then a literal that is left open: the copy has the terminating NUL of the text
-- as a byte of its own, so that it stays in the buffer exactly when a byte was dropped before.
pub remove_quotes-open_literal :
    (ps : List Piece) (ls : List Letter)
    → PiecesFit ps
    → letters_fit ls ≡ true
    → remove_quotes (source ps ++ b'\'' ∷ letter_source ls) ≡ (
        if ltb
          (length (cleaned ps) + length (letter_text ls))
          (length (source ps) + length (letter_source ls))
        then kept (cleaned ps ++ b'\'' ∷ (letter_text ls ++ 0 ∷ []))
        else outside)
unfolding remove_quotes at_end next stored
remove_quotes-open_literal ps ls h k =
    let s = source ps ++ b'\'' ∷ letter_source ls in
    let t = cleaned ps ++ b'\'' ∷ (letter_text ls ++ 0 ∷ []) in
    let copied : copy text s ≡ kept t =
      copy-cleaned ps (b'\'' ∷ letter_source ls) h
      ∙ ap (before (cleaned ps)) (
          step text literal b'\'' (letter_source ls) (b'\'' ∷ []) refl refl
          ∙ ap (before (b'\'' ∷ []))
              (ap (copy literal) (sym (append-nil (letter_source ls))) ∙ copy-letters ls [] k)) in
    ap (in_buffer (length s + 1)) copied
    ∙ fits_iff (length s + 1) (length (cleaned ps) + length (letter_text ls))
        (length (source ps) + length (letter_source ls)) t
        (omega (
          arith,
          length-append (source ps) (b'\'' ∷ letter_source ls),
          length-append (cleaned ps) (b'\'' ∷ (letter_text ls ++ 0 ∷ [])),
          length-append (letter_text ls) (0 ∷ []),
        ))
