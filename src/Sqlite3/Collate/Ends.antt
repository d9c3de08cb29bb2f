-- ===== src/Sqlite3/Collate/Ends.antt =====
-- The loop of the collations ends: each round takes a byte off each string.
use tcl_dbi.Base.{
  ℕ, zero, suc, ◌<◌, ◌≤◌, ◌≡◌, ◌≢◌, refl, Bool, true, false, ◌&&◌, [], ◌∷◌, ◌==◌, ltb, length,
  if◌then◌else◌, arith, Bool-cases, inl, inr, min,
}
use tcl_dbi.Base.Int.{ℤ, pos, ◌-ℤ◌}
use tcl_dbi.Memory.{Bytes}
use tcl_dbi.Sqlite3.Collate.{
  Compared, result, beyond, unending, Numbers, decided, alike, overrun, Letters, differ, go_on,
  isdigit, signed, or_else, skip_zeros, digits_end, digits, fraction_end, fraction, reals_end,
  reals, letters, after_numbers, after_letters, at_numbers, collate,
}

-- What is left of both sides is shorter than given.
abbrev within : ℕ → ℕ → Numbers → Bool
within m n (decided d) = true
within m n (alike xs ys) = ltb (length xs) m && ltb (length ys) n
within m n overrun = true

digits_end-within :
    (d : ℤ) (xs ys : Bytes) (rest : Numbers)
    → within (length xs) (length ys) rest ≡ true
    → within (suc (length xs)) (suc (length ys)) (digits_end d xs ys rest) ≡ true
digits_end-within d xs ys rest h = ground arith

fraction_end-within :
    (xs ys : Bytes) (rest : Numbers)
    → within (length xs) (length ys) rest ≡ true
    → within (suc (length xs)) (suc (length ys)) (fraction_end xs ys rest) ≡ true
fraction_end-within xs ys rest h = ground arith

reals_end-within :
    (d : ℤ) (xs ys : Bytes) (frac rest : Numbers)
    → within (suc (length xs)) (suc (length ys)) frac ≡ true
    → within (length xs) (length ys) rest ≡ true
    → within (suc (length xs)) (suc (length ys)) (reals_end d xs ys frac rest) ≡ true
reals_end-within d xs ys frac rest h g = ground arith

pub digits-within : (d : ℤ) (xs ys : Bytes) → within (length xs) (length ys) (digits d xs ys) ≡ true
unfolding digits
digits-within d [] ys = refl
digits-within d (x ∷ xs) [] = refl
digits-within d (x ∷ xs) (y ∷ ys) =
    let d' = or_else d (signed x -ℤ signed y) in
    digits_end-within d' xs ys (digits d' xs ys) (digits-within d' xs ys)

fraction-within : (xs ys : Bytes) → within (length xs) (length ys) (fraction xs ys) ≡ true
unfolding fraction
fraction-within [] ys = refl
fraction-within (x ∷ xs) [] = refl
fraction-within (x ∷ xs) (y ∷ ys) =
    fraction_end-within xs ys (fraction xs ys) (fraction-within xs ys)

widen : (m n : ℕ) (k : Numbers) → within m n k ≡ true → within (suc m) (suc n) k ≡ true
widen m n k h = ground arith

pub reals-within : (d : ℤ) (xs ys : Bytes) → within (length xs) (length ys) (reals d xs ys) ≡ true
unfolding reals
reals-within d [] ys = refl
reals-within d (x ∷ xs) [] = refl
reals-within d (x ∷ xs) (y ∷ ys) =
    let d' = or_else d (signed x -ℤ signed y) in
    reals_end-within d' xs ys (fraction xs ys) (reals d' xs ys)
      (widen (length xs) (length ys) (fraction xs ys) (fraction-within xs ys))
      (reals-within d' xs ys)

abbrev pub Shrinks : (ℤ → Bytes → Bytes → Numbers) → Type 0
Shrinks numbers = (d : ℤ) (xs ys : Bytes) → within (length xs) (length ys) (numbers d xs ys) ≡ true

skip_zeros-length : (xs : Bytes) → length (skip_zeros xs).1 ≤ length xs
unfolding skip_zeros
skip_zeros-length [] = omega arith
skip_zeros-length (c ∷ cs) = ground (arith, skip_zeros-length cs)

-- The same answer, which is there.
abbrev Agree : Compared → Compared → Type 0
Agree a b = (a ≡ b) × (a ≢ unending)

result-returns : (d : ℤ) → result d ≢ unending
result-returns d h = cc

beyond-returns : beyond ≢ unending
beyond-returns h = cc

after_numbers-Agree :
    (next next' : Bytes → Bytes → Compared) (m k : ℕ) (n : Numbers)
    → within m k n ≡ true
    → ((xs ys : Bytes) → length xs < m → length ys < k → Agree (next xs ys) (next' xs ys))
    → Agree (after_numbers next n) (after_numbers next' n)
after_numbers-Agree next next' m k (decided d) w h = (refl, result-returns d)
after_numbers-Agree next next' m k (alike xs ys) w h = h xs ys (ground arith) (ground arith)
after_numbers-Agree next next' m k overrun w h = (refl, beyond-returns)

after_letters-Agree :
    (next next' : ℤ → Bytes → Bytes → Compared) (x : ℕ) (xs ys : Bytes) (l : Letters)
    → ((e : ℤ) → Agree (next e xs ys) (next' e xs ys))
    → Agree (after_letters next x xs ys l) (after_letters next' x xs ys l)
after_letters-Agree next next' x xs ys (differ d) h = (refl, result-returns d)
after_letters-Agree next next' x xs ys (go_on d e) h = elim (Bool-cases (x == 0)) [
  | inl k ↦ rw k (refl, result-returns (or_else d e))
  | inr k ↦ rw k (h e)
]

if_Agree :
    (b : Bool) (m m' k k' : Compared)
    → Agree m m'
    → Agree k k'
    → Agree (if b then m else k) (if b then m' else k')
if_Agree true m m' k k' h g = h
if_Agree false m m' k k' h g = g

-- Fuel above the length of the shorter string is enough: with more of it the answer is the same.
pub collate-Agree :
    (numbers : ℤ → Bytes → Bytes → Numbers) (f g : ℕ) (e : ℤ) (xs ys : Bytes)
    → Shrinks numbers
    → min (length xs) (length ys) < f
    → min (length xs) (length ys) < g
    → Agree (collate numbers f e xs ys) (collate numbers g e xs ys)
unfolding collate
collate-Agree numbers zero g e xs ys s h k = absurd (omega arith)
collate-Agree numbers (suc f) zero e xs ys s h k = absurd (omega arith)
collate-Agree numbers (suc f) (suc g) e [] ys s h k = (refl, beyond-returns)
collate-Agree numbers (suc f) (suc g) e (x ∷ xs) [] s h k = (refl, beyond-returns)
collate-Agree numbers (suc f) (suc g) e (x ∷ xs) (y ∷ ys) s h k =
    let left = skip_zeros (x ∷ xs) in
    let right = skip_zeros (y ∷ ys) in
    let e' = or_else e (pos left.0 -ℤ pos right.0) in
    if_Agree (isdigit y && isdigit x) (at_numbers numbers (collate numbers f) e left right)
      (at_numbers numbers (collate numbers g) e left right)
      (after_letters (collate numbers f) x xs ys (letters e x y))
      (after_letters (collate numbers g) x xs ys (letters e x y))
      (after_numbers-Agree (collate numbers f e') (collate numbers g e') (length left.1)
        (length right.1) (numbers (pos 0) left.1 right.1) (s (pos 0) left.1 right.1)
        (λ xs' ys' a b.
          collate-Agree numbers f g e' xs' ys' s
            (omega (arith, skip_zeros-length (x ∷ xs), skip_zeros-length (y ∷ ys)))
            (omega (arith, skip_zeros-length (x ∷ xs), skip_zeros-length (y ∷ ys)))))
      (after_letters-Agree (collate numbers f) (collate numbers g) x xs ys (letters e x y)
        (λ e. collate-Agree numbers f g e xs ys s (omega arith) (omega arith)))
