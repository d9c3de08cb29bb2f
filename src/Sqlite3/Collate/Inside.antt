-- ===== src/Sqlite3/Collate/Inside.antt =====
-- The collations do not read beyond the end of strings in which there is no digit zero.
use tcl_dbi.Base.{
  ℕ, zero, suc, ◌+◌, ◌≡◌, ◌≢◌, refl, sym, ◌∙◌, Bool, true, false, not, ◌&&◌, [], ◌∷◌, ◌==◌, length,
  if◌then◌else◌, arith, if_cases_by,
}
use tcl_dbi.Base.Int.{ℤ, pos, ◌-ℤ◌}
use tcl_dbi.Memory.{Bytes}
use tcl_dbi.Sqlite3.Collate.{
  Compared, result, beyond, unending, Numbers, decided, alike, overrun, Letters, differ, go_on,
  isdigit, signed, or_else, skip_zeros, digits_end, digits, fraction_end, fraction, reals_end,
  reals, letters, after_numbers, after_letters, at_numbers, collate, collate_dictionary,
  collate_dictreal,
}
use tcl_dbi.Sqlite3.Collate.Opposite.{letters-zero}
use tcl_dbi.Sqlite3.Collate.Order.{collations-return}

abbrev is_empty : Bytes → Bool
is_empty [] = true
is_empty (x ∷ xs) = false

-- A NUL stands at the end and nowhere else, and no byte is the digit zero.
abbrev pub is_plain : Bytes → Bool
is_plain [] = false
is_plain (x ∷ xs) = if x == 0 then is_empty xs else not (x == 48) && is_plain xs

abbrev is_plain_and_on : Bytes → Bool
is_plain_and_on [] = false
is_plain_and_on (x ∷ xs) = not (x == 0) && is_plain (x ∷ xs)

abbrev stays : Numbers → Bool
stays (decided d) = true
stays (alike xs ys) = is_plain xs && is_plain ys
stays overrun = false

digits_end-stays :
    (d : ℤ) (xs ys : Bytes) (rest : Numbers)
    → is_plain xs ≡ true
    → is_plain ys ≡ true
    → (is_plain_and_on xs ≡ true → is_plain_and_on ys ≡ true → stays rest ≡ true)
    → stays (digits_end d xs ys rest) ≡ true
digits_end-stays d xs ys rest h g k = ground arith

fraction_end-stays :
    (xs ys : Bytes) (rest : Numbers)
    → is_plain xs ≡ true
    → is_plain ys ≡ true
    → (is_plain_and_on xs ≡ true → is_plain_and_on ys ≡ true → stays rest ≡ true)
    → stays (fraction_end xs ys rest) ≡ true
fraction_end-stays xs ys rest h g k = ground arith

reals_end-stays :
    (d : ℤ) (xs ys : Bytes) (frac rest : Numbers)
    → is_plain xs ≡ true
    → is_plain ys ≡ true
    → (is_plain_and_on xs ≡ true → is_plain_and_on ys ≡ true → stays frac ≡ true)
    → (is_plain_and_on xs ≡ true → is_plain_and_on ys ≡ true → stays rest ≡ true)
    → stays (reals_end d xs ys frac rest) ≡ true
reals_end-stays d xs ys frac rest h g k l = ground arith

tail_plain : (x : ℕ) (xs : Bytes) → is_plain_and_on (x ∷ xs) ≡ true → is_plain xs ≡ true
tail_plain x xs h = ground arith

-- A comparison of numbers that stays inside.
abbrev Stays : (ℤ → Bytes → Bytes → Numbers) → Type 0
Stays numbers =
    (d : ℤ) (xs ys : Bytes)
    → is_plain_and_on xs ≡ true
    → is_plain_and_on ys ≡ true
    → stays (numbers d xs ys) ≡ true

digits-Stays : Stays digits
unfolding digits
digits-Stays d [] ys h g = cc
digits-Stays d (x ∷ xs) [] h g = cc
digits-Stays d (x ∷ xs) (y ∷ ys) h g =
    let d' = or_else d (signed x -ℤ signed y) in
    digits_end-stays d' xs ys (digits d' xs ys) (tail_plain x xs h) (tail_plain y ys g)
      (digits-Stays d' xs ys)

fraction-stays :
    (xs ys : Bytes)
    → is_plain_and_on xs ≡ true
    → is_plain_and_on ys ≡ true
    → stays (fraction xs ys) ≡ true
unfolding fraction
fraction-stays [] ys h g = cc
fraction-stays (x ∷ xs) [] h g = cc
fraction-stays (x ∷ xs) (y ∷ ys) h g =
    fraction_end-stays xs ys (fraction xs ys) (tail_plain x xs h) (tail_plain y ys g)
      (fraction-stays xs ys)

reals-Stays : Stays reals
unfolding reals
reals-Stays d [] ys h g = cc
reals-Stays d (x ∷ xs) [] h g = cc
reals-Stays d (x ∷ xs) (y ∷ ys) h g =
    let d' = or_else d (signed x -ℤ signed y) in
    reals_end-stays d' xs ys (fraction xs ys) (reals d' xs ys) (tail_plain x xs h)
      (tail_plain y ys g) (fraction-stays xs ys) (reals-Stays d' xs ys)

skip_zeros-plain : (xs : Bytes) → is_plain xs ≡ true → skip_zeros xs ≡ (0, xs)
unfolding skip_zeros
skip_zeros-plain [] h = refl
skip_zeros-plain (x ∷ xs) h = ground arith

digit_goes_on :
    (x : ℕ) (xs : Bytes)
    → isdigit x ≡ true
    → is_plain (x ∷ xs) ≡ true
    → is_plain_and_on (x ∷ xs) ≡ true
digit_goes_on x xs h g = ground arith

plain_tail_at :
    (x : ℕ) (xs : Bytes) → (x == 0) ≡ false → is_plain (x ∷ xs) ≡ true → is_plain xs ≡ true
plain_tail_at x xs h g = ground arith

abbrev Inside : Compared → Type 0
Inside c = c ≢ beyond

result-Inside : (d : ℤ) → Inside (result d)
result-Inside d h = cc

unending-Inside : Inside unending
unending-Inside h = cc

after_numbers-Inside :
    (next : Bytes → Bytes → Compared) (n : Numbers)
    → stays n ≡ true
    → ((xs ys : Bytes) → is_plain xs ≡ true → is_plain ys ≡ true → Inside (next xs ys))
    → Inside (after_numbers next n)
after_numbers-Inside next (decided d) s h = result-Inside d
after_numbers-Inside next (alike xs ys) s h = h xs ys (ground arith) (ground arith)
after_numbers-Inside next overrun s h = absurd (ground arith)

after_letters-Inside :
    (next : ℤ → Bytes → Bytes → Compared) (x y : ℕ) (xs ys : Bytes) (l : Letters)
    → ((d e : ℤ) → l ≡ go_on d e → (x == 0) ≡ (y == 0))
    → ((e : ℤ) → (x == 0) ≡ false → (y == 0) ≡ false → Inside (next e xs ys))
    → Inside (after_letters next x xs ys l)
after_letters-Inside next x y xs ys (differ d) z h = result-Inside d
after_letters-Inside next x y xs ys (go_on d e) z h =
    if_cases_by Inside (x == 0) (λ k. result-Inside (or_else d e))
      (λ k. h e k (sym (z d e refl) ∙ k))

at_numbers-Inside :
    (numbers : ℤ → Bytes → Bytes → Numbers) (next : ℤ → Bytes → Bytes → Compared) (e : ℤ)
    (left right : ℕ × Bytes) (xs ys : Bytes)
    → left ≡ (0, xs)
    → right ≡ (0, ys)
    → stays (numbers (pos 0) xs ys) ≡ true
    → ((e : ℤ) (xs ys : Bytes) → is_plain xs ≡ true → is_plain ys ≡ true → Inside (next e xs ys))
    → Inside (at_numbers numbers next e left right)
at_numbers-Inside numbers next e left right xs ys h g s k =
    rw (h, g)
      (after_numbers-Inside (next (or_else e (pos 0 -ℤ pos 0))) (numbers (pos 0) xs ys) s (k _))

collate-Inside :
    (numbers : ℤ → Bytes → Bytes → Numbers) (f : ℕ) (e : ℤ) (xs ys : Bytes)
    → Stays numbers
    → is_plain xs ≡ true
    → is_plain ys ≡ true
    → Inside (collate numbers f e xs ys)
unfolding collate
collate-Inside numbers zero e xs ys s h g = unending-Inside
collate-Inside numbers (suc f) e [] ys s h g = absurd (ground arith)
collate-Inside numbers (suc f) e (x ∷ xs) [] s h g = absurd (ground arith)
collate-Inside numbers (suc f) e (x ∷ xs) (y ∷ ys) s h g =
    if_cases_by Inside (isdigit y && isdigit x)
      (λ k.
        at_numbers-Inside numbers (collate numbers f) e (skip_zeros (x ∷ xs)) (skip_zeros (y ∷ ys))
          (x ∷ xs) (y ∷ ys) (skip_zeros-plain (x ∷ xs) h) (skip_zeros-plain (y ∷ ys) g)
          (s (pos 0) (x ∷ xs) (y ∷ ys) (digit_goes_on x xs (ground arith) h)
            (digit_goes_on y ys (ground arith) g))
          (λ e xs ys. collate-Inside numbers f e xs ys s))
      (λ k.
        after_letters-Inside (collate numbers f) x y xs ys (letters e x y) (letters-zero e x y)
          (λ e a b.
            collate-Inside numbers f e xs ys s (plain_tail_at x xs a h) (plain_tail_at y ys b g)))

there : (c : Compared) → c ≢ beyond → c ≢ unending → (d : ℤ) × (c ≡ result d)
there (result d) h g = (d, refl)
there beyond h g = absurd (h refl)
there unending h g = absurd (g refl)

-- DICT and DICTREAL give a result, and read no byte beyond the strings, for strings that end at their
-- only NUL and have no digit zero in them.
pub collations-inside :
    (left right : Bytes)
    → is_plain left ≡ true
    → is_plain right ≡ true
    → ((d : ℤ) × (collate_dictionary left right ≡ result d))
      × ((d : ℤ) × (collate_dictreal left right ≡ result d))
unfolding collate_dictionary collate_dictreal
collations-inside left right h g =
    let returns = collations-return left right in
    (
      there (collate_dictionary left right)
          (collate-Inside digits (length left + 1) (pos 0) left right digits-Stays h g) returns.0,
      there (collate_dictreal left right)
          (collate-Inside reals (length left + 1) (pos 0) left right reals-Stays h g) returns.1,
    )
