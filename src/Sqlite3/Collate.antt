-- ===== src/Sqlite3/Collate.antt =====
-- The collations DICT and DICTREAL of sqlite3/generic/sqlite.c: Dbi_sqlite3_collate_dictionary and
-- Dbi_sqlite3_collate_dictreal. A string is its bytes and the NUL behind them; what is left of the
-- list is what is left from the index on, and a read where nothing is left is `beyond`. Letters and
-- digits are those of the C locale; a byte from 128 on is a negative char.
pub mod Values
pub mod Opposite
pub mod Order
pub mod Inside
pub mod Ends
pub mod Tests
use tcl_dbi.Base.{
  ℕ, zero, suc, ◌+◌, ◌-◌, Bool, true, false, not, ◌&&◌, List, [], ◌∷◌, ◌==◌, leb, ltb, length,
  if◌then◌else◌,
}
use tcl_dbi.Base.Int.{ℤ, pos, negsuc, ◌-ℤ◌}
use tcl_dbi.Memory.{Bytes}

pub data Compared : Type 0 where
  result : ℤ → Compared
  beyond unending : Compared

-- How the comparison of two numbers ends: with a result, or alike, with what is behind them.
pub data Numbers : Type 0 where
  decided : ℤ → Numbers
  alike : Bytes → Bytes → Numbers
  overrun : Numbers

-- How the comparison of two other characters ends: with a result, or with `diff` and `secondaryDiff`.
pub data Letters : Type 0 where
  differ : ℤ → Letters
  go_on : ℤ → ℤ → Letters

abbrev pub isdigit : ℕ → Bool
isdigit c = leb 48 c && leb c 57

abbrev pub isupper : ℕ → Bool
isupper c = leb 65 c && leb c 90

abbrev pub islower : ℕ → Bool
islower c = leb 97 c && leb c 122

abbrev pub tolower : ℕ → ℕ
tolower c = if isupper c then c + 32 else c

-- a `char` as an int
abbrev pub signed : ℕ → ℤ
signed c = if ltb c 128 then pos c else negsuc (255 - c)

abbrev pub is_nil : ℤ → Bool
is_nil (pos n) = n == 0
is_nil (negsuc n) = false

abbrev pub or_else : ℤ → ℤ → ℤ
or_else d e = if is_nil d then e else d

-- the leading zeros, and what is behind them
unfoldable pub skip_zeros : Bytes → ℕ × Bytes
skip_zeros [] = (0, [])
skip_zeros (c ∷ cs) =
    let rest = skip_zeros cs in
    if (c == 48) && ltb 0 (length cs) then (suc rest.0, rest.1) else (0, c ∷ cs)

-- After a step over a digit on each side, with `diff`: the ends of DICT's loop, or `rest`.
abbrev pub digits_end : ℤ → Bytes → Bytes → Numbers → Numbers
digits_end d [] ys rest = overrun
digits_end d (x ∷ xs) [] rest = overrun
digits_end d (x ∷ xs) (y ∷ ys) rest =
    if not (isdigit y)
    then if isdigit x
      then decided (pos 1)
      else if is_nil d
      then alike (x ∷ xs) (y ∷ ys)
      else decided d
    else if not (isdigit x)
    then decided (negsuc 0)
    else rest

unfoldable pub digits : ℤ → Bytes → Bytes → Numbers
digits d [] ys = overrun
digits d (x ∷ xs) [] = overrun
digits d (x ∷ xs) (y ∷ ys) =
    let d' = or_else d (signed x -ℤ signed y) in
    let rest = digits d' xs ys in digits_end d' xs ys rest

-- The numbers behind the points, which both sides have.
abbrev pub fraction_end : Bytes → Bytes → Numbers → Numbers
fraction_end [] ys rest = overrun
fraction_end (x ∷ xs) [] rest = overrun
fraction_end (x ∷ xs) (y ∷ ys) rest =
    if not (isdigit y)
    then if not (isdigit x) then alike (x ∷ xs) (y ∷ ys) else decided (pos 1)
    else if not (isdigit x)
    then decided (negsuc 0)
    else if is_nil (signed x -ℤ signed y)
    then rest
    else decided (signed x -ℤ signed y)

unfoldable pub fraction : Bytes → Bytes → Numbers
fraction [] ys = overrun
fraction (x ∷ xs) [] = overrun
fraction (x ∷ xs) (y ∷ ys) = let rest = fraction xs ys in fraction_end xs ys rest

-- The ends of DICTREAL's loop; `frac` is the comparison behind the points.
abbrev pub reals_end : ℤ → Bytes → Bytes → Numbers → Numbers → Numbers
reals_end d [] ys frac rest = overrun
reals_end d (x ∷ xs) [] frac rest = overrun
reals_end d (x ∷ xs) (y ∷ ys) frac rest =
    if x == 46
    then if isdigit y
      then decided (negsuc 0)
      else if not (y == 46)
      then if is_nil d then decided (negsuc 0) else decided d
      else if is_nil d
      then frac
      else decided d
    else if y == 46
    then if isdigit x then decided (pos 1) else if is_nil d then decided (pos 1) else decided d
    else if not (isdigit y)
    then if isdigit x
      then decided (pos 1)
      else if is_nil d
      then alike (x ∷ xs) (y ∷ ys)
      else decided d
    else if not (isdigit x)
    then decided (negsuc 0)
    else rest

unfoldable pub reals : ℤ → Bytes → Bytes → Numbers
unfolding fraction
reals d [] ys = overrun
reals d (x ∷ xs) [] = overrun
reals d (x ∷ xs) (y ∷ ys) =
    let d' = or_else d (signed x -ℤ signed y) in
    let rest = reals d' xs ys in reals_end d' xs ys (fraction xs ys) rest

-- two characters that are not both digits
unfoldable pub letters : ℤ → ℕ → ℕ → Letters
letters secondary x y =
    let d = signed x -ℤ signed y in
    let folded_left = signed (tolower x) -ℤ signed y in
    let folded_right = signed x -ℤ signed (tolower y) in
    if is_nil d
    then go_on d secondary
    else if isupper x && islower y
    then if is_nil folded_left
      then go_on folded_left (or_else secondary (negsuc 0))
      else differ folded_left
    else if isupper y && islower x
    then if is_nil folded_right
      then go_on folded_right (or_else secondary (pos 1))
      else differ folded_right
    else differ d

-- the rest of the loop's body, with the next rounds
abbrev pub after_numbers : (Bytes → Bytes → Compared) → Numbers → Compared
after_numbers next (decided d) = result d
after_numbers next (alike xs ys) = next xs ys
after_numbers next overrun = beyond

abbrev pub after_letters : (ℤ → Bytes → Bytes → Compared) → ℕ → Bytes → Bytes → Letters → Compared
after_letters next x xs ys (differ d) = result d
after_letters next x xs ys (go_on d secondary) =
    if x == 0 then result (or_else d secondary) else next secondary xs ys

abbrev pub at_numbers :
    (ℤ → Bytes → Bytes → Numbers)
    → (ℤ → Bytes → Bytes → Compared)
    → ℤ
    → ℕ × Bytes
    → ℕ × Bytes
    → Compared
at_numbers numbers next secondary left right =
    after_numbers (next (or_else secondary (pos left.0 -ℤ pos right.0)))
      (numbers (pos 0) left.1 right.1)

-- The loop of both functions, by their comparison of numbers, on fuel.
unfoldable pub collate : (ℤ → Bytes → Bytes → Numbers) → ℕ → ℤ → Bytes → Bytes → Compared
unfolding letters skip_zeros
collate numbers zero secondary xs ys = unending
collate numbers (suc f) secondary [] ys = beyond
collate numbers (suc f) secondary (x ∷ xs) [] = beyond
collate numbers (suc f) secondary (x ∷ xs) (y ∷ ys) =
    if isdigit y && isdigit x
    then at_numbers numbers (collate numbers f) secondary (skip_zeros (x ∷ xs))
        (skip_zeros (y ∷ ys))
    else after_letters (collate numbers f) x xs ys (letters secondary x y)

-- The fuel is enough: each round but the last steps over a byte of the left string.
unfoldable pub collate_dictionary : Bytes → Bytes → Compared
unfolding digits collate
collate_dictionary left right = collate digits (length left + 1) (pos 0) left right

unfoldable pub collate_dictreal : Bytes → Bytes → Compared
unfolding reals collate
collate_dictreal left right = collate reals (length left + 1) (pos 0) left right
