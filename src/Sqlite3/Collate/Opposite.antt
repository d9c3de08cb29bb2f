-- ===== src/Sqlite3/Collate/Opposite.antt =====
-- The collations with their two strings exchanged.
use tcl_dbi.Base.{
  ℕ, zero, suc, ◌≡◌, refl, sym, ap, ◌∙◌, Bool, true, false, ◌&&◌, [], ◌∷◌, ◌==◌, if◌then◌else◌,
  arith, Bool-cases, inl, inr,
}
use mathlib.Core.Bool.{and_comm}
use tcl_dbi.Base.Int.{ℤ, pos, negsuc, ◌-ℤ◌}
use tcl_dbi.Memory.{Bytes}
use tcl_dbi.Sqlite3.Collate.{
  Compared, result, beyond, unending, Numbers, decided, alike, overrun, Letters, differ, go_on,
  isdigit, tolower, signed, is_nil, or_else, skip_zeros, digits_end, digits, fraction_end, fraction,
  reals_end, reals, letters, after_numbers, after_letters, at_numbers, collate,
}

abbrev pub negate : ℤ → ℤ
negate (pos zero) = pos zero
negate (pos (suc n)) = negsuc n
negate (negsuc n) = pos (suc n)

abbrev pub opposite : Compared → Compared
opposite (result d) = result (negate d)
opposite beyond = beyond
opposite unending = unending

abbrev pub exchanged : Numbers → Numbers
exchanged (decided d) = decided (negate d)
exchanged (alike xs ys) = alike ys xs
exchanged overrun = overrun

abbrev exchanged_letters : Letters → Letters
exchanged_letters (differ d) = differ (negate d)
exchanged_letters (go_on d e) = go_on (negate d) (negate e)

minus-negate : (a b : ℤ) → b -ℤ a ≡ negate (a -ℤ b)
unfolding ◌-ℤ◌
minus-negate a b = ground arith

is_nil-negate : (d : ℤ) → is_nil (negate d) ≡ is_nil d
is_nil-negate d = ground arith

or_else-negate : (d e : ℤ) → or_else (negate d) (negate e) ≡ negate (or_else d e)
or_else-negate d e = ground arith

digits_end-exchanged :
    (d : ℤ) (xs ys : Bytes) (rest : Numbers)
    → digits_end (negate d) ys xs (exchanged rest) ≡ exchanged (digits_end d xs ys rest)
digits_end-exchanged d xs ys rest = ground arith

fraction_end-exchanged :
    (xs ys : Bytes) (rest : Numbers)
    → fraction_end ys xs (exchanged rest) ≡ exchanged (fraction_end xs ys rest)
fraction_end-exchanged [] [] rest = refl
fraction_end-exchanged [] (y ∷ ys) rest = refl
fraction_end-exchanged (x ∷ xs) [] rest = refl
fraction_end-exchanged (x ∷ xs) (y ∷ ys) rest = ground (arith, minus-negate (signed x) (signed y))

reals_end-exchanged :
    (d : ℤ) (xs ys : Bytes) (frac rest : Numbers)
    → reals_end (negate d) ys xs (exchanged frac) (exchanged rest)
      ≡ exchanged (reals_end d xs ys frac rest)
reals_end-exchanged d xs ys frac rest = ground arith

letters-exchanged : (e : ℤ) (x y : ℕ) → letters (negate e) y x ≡ exchanged_letters (letters e x y)
unfolding letters
letters-exchanged e x y = ground (
  arith,
  minus-negate (signed x) (signed y),
  minus-negate (signed (tolower x)) (signed y),
  minus-negate (signed x) (signed (tolower y)),
)

pub digits-exchanged :
    (d : ℤ) (xs ys : Bytes) → digits (negate d) ys xs ≡ exchanged (digits d xs ys)
unfolding digits
digits-exchanged d [] [] = refl
digits-exchanged d [] (y ∷ ys) = refl
digits-exchanged d (x ∷ xs) [] = refl
digits-exchanged d (x ∷ xs) (y ∷ ys) =
    let d' = or_else d (signed x -ℤ signed y) in
    let e : or_else (negate d) (signed y -ℤ signed x) ≡ negate d' =
      ap (or_else (negate d)) (minus-negate (signed x) (signed y)) ∙ or_else-negate d _ in
    rw (e, digits-exchanged d' xs ys) (digits_end-exchanged d' xs ys (digits d' xs ys))

fraction-exchanged : (xs ys : Bytes) → fraction ys xs ≡ exchanged (fraction xs ys)
unfolding fraction
fraction-exchanged [] [] = refl
fraction-exchanged [] (y ∷ ys) = refl
fraction-exchanged (x ∷ xs) [] = refl
fraction-exchanged (x ∷ xs) (y ∷ ys) =
    rw (fraction-exchanged xs ys) (fraction_end-exchanged xs ys (fraction xs ys))

pub reals-exchanged : (d : ℤ) (xs ys : Bytes) → reals (negate d) ys xs ≡ exchanged (reals d xs ys)
unfolding reals
reals-exchanged d [] [] = refl
reals-exchanged d [] (y ∷ ys) = refl
reals-exchanged d (x ∷ xs) [] = refl
reals-exchanged d (x ∷ xs) (y ∷ ys) =
    let d' = or_else d (signed x -ℤ signed y) in
    let e : or_else (negate d) (signed y -ℤ signed x) ≡ negate d' =
      ap (or_else (negate d)) (minus-negate (signed x) (signed y)) ∙ or_else-negate d _ in
    rw (e, reals-exchanged d' xs ys, fraction-exchanged xs ys)
      (reals_end-exchanged d' xs ys (fraction xs ys) (reals d' xs ys))

-- A comparison of numbers that takes its sides alike.
abbrev pub Even : (ℤ → Bytes → Bytes → Numbers) → Type 0
Even numbers = (d : ℤ) (xs ys : Bytes) → numbers (negate d) ys xs ≡ exchanged (numbers d xs ys)

after_numbers-opposite :
    (next next' : Bytes → Bytes → Compared) (n : Numbers)
    → ((xs ys : Bytes) → next' ys xs ≡ opposite (next xs ys))
    → after_numbers next' (exchanged n) ≡ opposite (after_numbers next n)
after_numbers-opposite next next' (decided d) h = refl
after_numbers-opposite next next' (alike xs ys) h = h xs ys
after_numbers-opposite next next' overrun h = refl

-- Two characters that are taken for the same are both the end, or neither is.
pub letters-zero : (e : ℤ) (x y : ℕ) (d e' : ℤ) → letters e x y ≡ go_on d e' → (x == 0) ≡ (y == 0)
unfolding letters ◌-ℤ◌
letters-zero e x y d e' h = ground arith

after_letters-opposite :
    (next next' : ℤ → Bytes → Bytes → Compared) (x y : ℕ) (xs ys : Bytes) (l : Letters)
    → ((e : ℤ) (xs ys : Bytes) → next' (negate e) ys xs ≡ opposite (next e xs ys))
    → ((d e : ℤ) → l ≡ go_on d e → (x == 0) ≡ (y == 0))
    → after_letters next' y ys xs (exchanged_letters l) ≡ opposite (after_letters next x xs ys l)
after_letters-opposite next next' x y xs ys (differ d) h z = refl
after_letters-opposite next next' x y xs ys (go_on d e) h z = elim (Bool-cases (x == 0)) [
  | inl k ↦ rw (k, sym (z d e refl) ∙ k) (ap result (or_else-negate d e))
  | inr k ↦ rw (k, sym (z d e refl) ∙ k) (h e xs ys)
]

at_numbers-opposite :
    (numbers : ℤ → Bytes → Bytes → Numbers) (next next' : ℤ → Bytes → Bytes → Compared) (e : ℤ)
    (left right : ℕ × Bytes)
    → Even numbers
    → ((e : ℤ) (xs ys : Bytes) → next' (negate e) ys xs ≡ opposite (next e xs ys))
    → at_numbers numbers next' (negate e) right left
      ≡ opposite (at_numbers numbers next e left right)
at_numbers-opposite numbers next next' e left right even h =
    let e' = or_else e (pos left.0 -ℤ pos right.0) in
    let k : or_else (negate e) (pos right.0 -ℤ pos left.0) ≡ negate e' =
      ap (or_else (negate e)) (minus-negate (pos left.0) (pos right.0)) ∙ or_else-negate e _ in
    rw (k, even (pos 0) left.1 right.1)
      (after_numbers-opposite (next e') (next' (negate e')) (numbers (pos 0) left.1 right.1) (h e'))

if_opposite :
    (b b' : Bool) (m m' k k' : Compared)
    → b' ≡ b
    → m' ≡ opposite m
    → k' ≡ opposite k
    → (if b' then m' else k') ≡ opposite (if b then m else k)
if_opposite true b' m m' k k' e h g = rw e h
if_opposite false b' m m' k k' e h g = rw e g

pub collate-opposite :
    (numbers : ℤ → Bytes → Bytes → Numbers) (f : ℕ) (e : ℤ) (xs ys : Bytes)
    → Even numbers
    → collate numbers f (negate e) ys xs ≡ opposite (collate numbers f e xs ys)
unfolding collate
collate-opposite numbers zero e xs ys even = refl
collate-opposite numbers (suc f) e [] [] even = refl
collate-opposite numbers (suc f) e [] (y ∷ ys) even = refl
collate-opposite numbers (suc f) e (x ∷ xs) [] even = refl
collate-opposite numbers (suc f) e (x ∷ xs) (y ∷ ys) even =
    if_opposite (isdigit y && isdigit x) (isdigit x && isdigit y)
      (at_numbers numbers (collate numbers f) e (skip_zeros (x ∷ xs)) (skip_zeros (y ∷ ys))) _
      (after_letters (collate numbers f) x xs ys (letters e x y)) _
      (and_comm (isdigit x) (isdigit y))
      (at_numbers-opposite numbers (collate numbers f) (collate numbers f) e (skip_zeros (x ∷ xs))
        (skip_zeros (y ∷ ys)) even (λ e xs ys. collate-opposite numbers f e xs ys even))
      (ap (after_letters (collate numbers f) y ys xs) (letters-exchanged e x y)
        ∙ after_letters-opposite (collate numbers f) (collate numbers f) x y xs ys (letters e x y)
            (λ e xs ys. collate-opposite numbers f e xs ys even) (letters-zero e x y))
