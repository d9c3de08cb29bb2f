-- ===== src/Firebird/Split.antt =====
-- dbi_Firebird_SplitSQL of firebird/generic/firebird.c with Find_Prev: the statements of a text that
-- has a `;`. A text is its bytes, none of them NUL, and a read behind them gives the NUL. The scan
-- takes fuel, and `endless` is the answer where it runs out.
pub mod Cuts
pub mod Tests
use tcl_dbi.Base.{
  ℕ, zero, suc, ◌+◌, ◌-◌, Bool, true, false, not, ◌&&◌, ◌||◌, Option, none, some, List, [], ◌∷◌,
  ◌++◌, ◌==◌, if◌then◌else◌, ltb, leb, length, take, drop, get_or,
}
use tcl_dbi.Base.Int.{ℤ, pos, ◌+ℤ◌, ◌-ℤ◌}
use tcl_dbi.Memory.{Bytes, bytes_eq, codes}

abbrev pub is_blank : ℕ → Bool
is_blank c = (c == 32) || (c == 9)

abbrev pub white : ℕ → Bool
white c = (c == 32) || ((c == 10) || (c == 9))

-- The end of the last word in the `n` bytes at `prevline`; 0 where they are blank.
unfoldable pub word_end : Bytes → ℕ → ℕ → ℕ
word_end text prevline zero = 0
word_end text prevline (suc n) =
    let rest = word_end text prevline n in
    if is_blank (get_or text (prevline + n) 0) then rest else suc n

-- Whether the `n` bytes at `prevline` end with `word`, blanks after it left aside.
unfoldable pub find_prev : Bytes → ℕ → ℕ → Bytes → Bool
unfolding word_end
find_prev text prevline n word =
    let end = word_end text prevline n in
    if ltb end (length word)
    then false
    else bytes_eq (take (length word) (drop (prevline + (end - length word)) text)) word

-- How many bytes a loop over white space passes.
unfoldable pub whites : Bytes → ℕ
whites [] = 0
whites (c ∷ cs) = if white c then suc (whites cs) else 0

-- The first place from `i` on that is not white space.
unfoldable pub skip_white : Bytes → ℕ → ℕ
unfolding whites
skip_white text i = i + whites (drop i text)

-- The same for `prevline`, which goes no further than behind `i`.
unfoldable pub skip_until : Bytes → ℕ → ℕ → ℕ
unfolding whites
skip_until text i prevline = prevline + whites (take (suc i - prevline) (drop prevline text))

unfoldable pub declares : Bytes → ℕ → Bool
declares text prevline =
    bytes_eq (take 7 (drop prevline text)) (codes "declare")
    || bytes_eq (take 7 (drop prevline text)) (codes "DECLARE")

-- The local variables of the scan; `lines` has the start and the size of each statement.
pub record Scan : Type 0 where
  pub i : ℕ
  pub start : ℕ
  pub prevline : ℕ
  pub blevel : ℤ
  pub level : Bool
  pub lines : List (ℕ × ℕ)

-- `beyond`: the scan stands behind the terminating NUL, where it reads what it does not own.
pub data Progress : Type 0 where
  over : List (ℕ × ℕ) → Progress
  again : Scan → Progress
  beyond endless : Progress

abbrev pub ends_block : Bytes → ℕ → ℕ → Bool
unfolding find_prev
ends_block text prevline n =
    find_prev text prevline n (codes "end") || find_prev text prevline n (codes "END")

abbrev pub begins_block : Bytes → ℕ → ℕ → Bool
unfolding find_prev
begins_block text prevline n =
    find_prev text prevline n (codes "begin") || find_prev text prevline n (codes "BEGIN")

-- At the end of a line.
unfoldable pub newline : Bytes → Scan → Progress
unfolding ◌+ℤ◌ ◌-ℤ◌ find_prev
newline text s =
    let blevel' =
      if begins_block text s.prevline (s.i - s.prevline)
      then s.blevel +ℤ pos 1
      else if ends_block text s.prevline (s.i - s.prevline)
      then s.blevel -ℤ pos 1
      else s.blevel in
    again (record s { i = suc s.i; prevline = suc s.i; blevel = blevel' })

abbrev pub is_zero : ℤ → Bool
is_zero (pos zero) = true
is_zero _ = false

-- The statement that ends at the `;` is kept, and the next one starts behind the white space.
unfoldable pub cut_statement : Bytes → Scan → Progress
unfolding skip_white
cut_statement text s =
    let lines' = s.lines ++ (s.start, s.i - s.start) ∷ [] in
    let next = skip_white text (suc s.i) in
    if next == length text
    then over lines'
    else again (record s { i = next; start = next; lines = lines' })

-- In a literal or a block the scan goes on, and else the statement ends.
unfoldable pub end_statement : Bytes → Scan → Progress
unfolding cut_statement
end_statement text s =
    if (s.level || not (is_zero s.blevel)) && not (s.i == length text)
    then again (record s { i = suc s.i })
    else if s.i == length text
    then over s.lines
    else cut_statement text s

-- At a `;` or at the end of the text.
unfoldable pub semicolon : Bytes → Scan → Progress
unfolding ◌-ℤ◌ skip_until declares find_prev end_statement
semicolon text s =
    let prevline' = skip_until text s.i s.prevline in
    let blevel' =
      if ends_block text prevline' (s.i - prevline') then s.blevel -ℤ pos 1 else s.blevel in
    if (s.i - s.start) == 0
    then over s.lines
    else if ltb 7 (s.i - s.start) && declares text prevline'
    then again (record s { i = suc s.i; prevline = prevline' })
    else end_statement text (record s { prevline = prevline'; blevel = blevel' })

-- At a quote; two of them in a literal are passed over.
unfoldable pub quote : Bytes → Scan → Progress
quote text s =
    if s.level
    then if not (suc s.i == length text) && not (get_or text (suc s.i) 0 == 39)
      then again (record s { i = suc s.i; level = false })
      else again (record s { i = suc (suc s.i) })
    else again (record s { i = suc s.i; level = true })

-- One round of the scan.
unfoldable pub at_char : Bytes → Scan → Progress
unfolding newline semicolon quote
at_char text s =
    let c = get_or text s.i 0 in
    if ltb (length text) s.i
    then beyond
    else if c == 10
    then newline text s
    else if (c == 59) || (s.i == length text)
    then semicolon text s
    else if c == 39
    then quote text s
    else again (record s { i = suc s.i })

abbrev pub continue : (Scan → Progress) → Progress → Progress
continue f (over lines) = over lines
continue f (again s) = f s
continue f beyond = beyond
continue f endless = endless

unfoldable pub scan_lines : ℕ → Bytes → Scan → Progress
unfolding at_char
scan_lines zero text s = endless
scan_lines (suc fuel) text s = continue (λ s'. scan_lines fuel text s') (at_char text s)

unfoldable pub has_semicolon : Bytes → Bool
has_semicolon [] = false
has_semicolon (c ∷ cs) = (c == 59) || has_semicolon cs

-- The statements of a text; `lines` stays NULL, here the empty list, where none is found.
unfoldable pub split_sql : ℕ → Bytes → Progress
unfolding has_semicolon skip_white scan_lines
split_sql fuel text =
    let i = skip_white text 0 in
    if has_semicolon text
    then scan_lines fuel text
        (record { i = i; start = i; prevline = i; blevel = pos 0; level = false; lines = [] })
    else over []
