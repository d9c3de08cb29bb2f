-- ===== src/Sqlite3/Collate/Values.antt =====
-- DICT orders numbers by their value.
use native.Mathlib.Nat.{mul-le-mul_right, pow-suc, pow-le-pow_right}
use tcl_dbi.Base.{
  ℕ, suc, ◌+◌, ◌-◌, ◌*◌, ◌^◌, ◌<◌, ◌≤◌, ◌≡◌, refl, ap, ◌∙◌, Bool, true, false, ◌&&◌, [], ◌∷◌, ◌++◌,
  ◌==◌, ltb, length, length-append, if◌then◌else◌, arith, Bool-cases, lt→ltb, le→ltb, ltb→lt,
  if_cases_by, inl, inr,
}
use tcl_dbi.Base.Int.{ℤ, pos, negsuc, ◌-ℤ◌, ltb_ℤ}
use tcl_dbi.Memory.{Bytes}
use tcl_dbi.Sqlite3.Collate.{
  result, decided, alike, Numbers, isdigit, signed, is_nil, or_else, skip_zeros, digits, letters,
  Compared, after_numbers, collate, collate_dictionary,
}

abbrev pub all_digits : Bytes → Bool
all_digits [] = true
all_digits (x ∷ xs) = isdigit x && all_digits xs

-- The number that the digits are written for.
abbrev pub value : Bytes → ℕ
value [] = 0
value (x ∷ xs) = (x - 48) * 10 ^ length xs + value xs

value-bound : (xs : Bytes) → all_digits xs ≡ true → value xs < 10 ^ length xs
value-bound [] h = omega arith
value-bound (x ∷ xs) h =
    let below : x - 48 ≤ 9 = ground arith in
    let rest : value xs < 10 ^ length xs = value-bound xs (ground arith) in
    omega (arith, pow-suc 10 (length xs), mul-le-mul_right (10 ^ length xs) below)

-- The first difference of two texts of one length, length-append, if `d` is none before.
abbrev first_difference : ℤ → Bytes → Bytes → ℤ
first_difference d [] ys = d
first_difference d (x ∷ xs) [] = d
first_difference d (x ∷ xs) (y ∷ ys) = first_difference (or_else d (signed x -ℤ signed y)) xs ys

-- `d` says how `a` and `b` are ordered.
abbrev Tells : ℤ → ℕ → ℕ → Type 0
Tells d a b = (ltb_ℤ d (pos 0) ≡ ltb a b) × (is_nil d ≡ (a == b))

or_else-decided : (d e : ℤ) → is_nil d ≡ false → or_else d e ≡ d
or_else-decided d e h = rw h refl

first_difference-decided : (d : ℤ) (xs ys : Bytes) → is_nil d ≡ false → first_difference d xs ys ≡ d
first_difference-decided d [] ys h = refl
first_difference-decided d (x ∷ xs) [] h = refl
first_difference-decided d (x ∷ xs) (y ∷ ys) h =
    rw (or_else-decided d (signed x -ℤ signed y) h) (first_difference-decided d xs ys h)

minus_digits : (x y : ℕ) → isdigit x ≡ true → isdigit y ≡ true → Tells (signed x -ℤ signed y) x y
unfolding ◌-ℤ◌
minus_digits x y h g = (ground arith, ground arith)

carry :
    (d : ℤ) (a b m n : ℕ)
    → Tells d a b
    → (a < b → m < n)
    → (b < a → n < m)
    → (a ≡ b → m ≡ n)
    → Tells d m n
carry d a b m n t h g k = (ground arith, ground arith)

head_less : (x y p v w : ℕ) → isdigit x ≡ true → x < y → v < p → (x - 48) * p + v < (y - 48) * p + w
head_less x y p v w h l b =
    let next : x - 48 + 1 ≤ y - 48 = ground arith in omega (arith, mul-le-mul_right p next)

-- Of two numbers of one length, the first difference tells the order.
first_difference-Tells :
    (xs ys : Bytes) (d : ℤ)
    → all_digits xs ≡ true
    → all_digits ys ≡ true
    → length xs ≡ length ys
    → is_nil d ≡ true
    → Tells (first_difference d xs ys) (value xs) (value ys)
first_difference-Tells [] [] d h g e n = (ground arith, ground arith)
first_difference-Tells [] (y ∷ ys) d h g e n = absurd (omega arith)
first_difference-Tells (x ∷ xs) [] d h g e n = absurd (omega arith)
first_difference-Tells (x ∷ xs) (y ∷ ys) d h g e n =
    let d' = signed x -ℤ signed y in
    let heads = minus_digits x y (ground arith) (ground arith) in
    let same : length xs ≡ length ys = omega arith in
    let power : 10 ^ length xs ≡ 10 ^ length ys = ap (λ k. 10 ^ k) same in
    let xs-bound : value xs < 10 ^ length xs = value-bound xs (ground arith) in
    let ys-bound : value ys < 10 ^ length ys = value-bound ys (ground arith) in
    let same_head : is_nil d' ≡ true → (x - 48) * 10 ^ length xs ≡ (y - 48) * 10 ^ length ys =
      λ k. let eq : x ≡ y = ground arith in cc in
    let at_y : (y - 48) * 10 ^ length xs ≡ (y - 48) * 10 ^ length ys =
      ap (λ p. (y - 48) * p) power in
    let at_x : (x - 48) * 10 ^ length xs ≡ (x - 48) * 10 ^ length ys =
      ap (λ p. (x - 48) * p) power in
    elim (Bool-cases (is_nil d')) [
      | inl k ↦ rw n (
          carry (first_difference d' xs ys) (value xs) (value ys) (value (x ∷ xs)) (value (y ∷ ys))
            (first_difference-Tells xs ys d' (ground arith) (ground arith) same k)
            (λ l. omega (arith, same_head k)) (λ l. omega (arith, same_head k))
            (λ l. omega (arith, same_head k)))
      | inr k ↦
          rw (n, first_difference-decided d' xs ys k)
            (carry d' x y (value (x ∷ xs)) (value (y ∷ ys)) heads
              (λ l. omega (
                arith,
                head_less x y (10 ^ length xs) (value xs) (value ys) (ground arith) l xs-bound,
              ))
              (λ l. omega (
                arith,
                head_less y x (10 ^ length ys) (value ys) (value xs) (ground arith) l ys-bound,
              ))
              (λ l. absurd (ground arith)))
    ]

-- The longer number is the greater one; numbers of one length are told by `d`.
abbrev outcome : ℕ → ℕ → ℤ → Numbers
outcome m n d =
    if ltb m n
    then decided (negsuc 0)
    else if ltb n m
    then decided (pos 1)
    else if is_nil d
    then alike (0 ∷ []) (0 ∷ [])
    else decided d

outcome-suc : (m n : ℕ) (d : ℤ) → outcome (suc m) (suc n) d ≡ outcome m n d
outcome-suc m n d = ground arith

-- DICT's loop over two numbers that end where the strings end.
digits-outcome :
    (xs ys : Bytes) (x y : ℕ) (d : ℤ)
    → all_digits (x ∷ xs) ≡ true
    → all_digits (y ∷ ys) ≡ true
    → digits d (x ∷ xs ++ 0 ∷ []) (y ∷ ys ++ 0 ∷ [])
      ≡ outcome (length xs) (length ys) (first_difference d (x ∷ xs) (y ∷ ys))
unfolding digits
digits-outcome [] [] x y d h g = refl
digits-outcome [] (y' ∷ ys) x y d h g =
    let at : isdigit y' ≡ true = ground arith in
    rw (at, lt→ltb 0 (suc (length ys)) (omega arith)) refl
digits-outcome (x' ∷ xs) [] x y d h g =
    let at : isdigit x' ≡ true = ground arith in
    rw (at, le→ltb (suc (length xs)) 0 (omega arith), lt→ltb 0 (suc (length xs)) (omega arith)) refl
digits-outcome (x' ∷ xs) (y' ∷ ys) x y d h g =
    let at_x : isdigit x' ≡ true = ground arith in
    let at_y : isdigit y' ≡ true = ground arith in
    let d' = or_else d (signed x -ℤ signed y) in
    let rest = digits-outcome xs ys x' y' d' (ground arith) (ground arith) in
    rw (at_x, at_y, outcome-suc (length xs) (length ys)) rest

value-leading :
    (x : ℕ) (xs : Bytes) → isdigit x ≡ true → (x == 48) ≡ false → 10 ^ length xs ≤ value (x ∷ xs)
value-leading x xs h n =
    let one : 1 ≤ x - 48 = ground arith in omega (arith, mul-le-mul_right (10 ^ length xs) one)

longer-greater :
    (x y : ℕ) (xs ys : Bytes)
    → all_digits (x ∷ xs) ≡ true
    → isdigit y ≡ true
    → (y == 48) ≡ false
    → length xs < length ys
    → value (x ∷ xs) < value (y ∷ ys)
longer-greater x y xs ys h g n l =
    let ten : 0 < 10 = omega arith in
    let power : 10 ^ suc (length xs) ≤ 10 ^ length ys = pow-le-pow_right ten l in
    omega (arith, value-bound (x ∷ xs) h, value-leading y ys g n)

less_Tells : (a b : ℕ) → a < b → Tells (negsuc 0) a b
less_Tells a b h = (ground arith, ground arith)

greater_Tells : (a b : ℕ) → b < a → Tells (pos 1) a b
greater_Tells a b h = (ground arith, ground arith)

nil_Tells : (d : ℤ) (a b : ℕ) → is_nil d ≡ true → Tells d a b → Tells (pos 0) a b
nil_Tells d a b z t = (ground arith, ground arith)

-- How the outcome of the numbers becomes the result.
outcome-Tells :
    (m n : ℕ) (d : ℤ) (a b : ℕ) (next : Bytes → Bytes → Compared)
    → next (0 ∷ []) (0 ∷ []) ≡ result (pos 0)
    → (m < n → a < b)
    → (n < m → b < a)
    → (m ≡ n → Tells d a b)
    → (r : ℤ) × (after_numbers next (outcome m n d) ≡ result r) × Tells r a b
outcome-Tells m n d a b next e h g k =
    if_cases_by Told (ltb m n) (λ l. (negsuc 0, refl, less_Tells a b (h (ltb→lt m n l))))
      (λ l.
        if_cases_by Told (ltb n m) (λ l'. (pos 1, refl, greater_Tells a b (g (ltb→lt n m l'))))
          (λ l'.
            let told = k (ground arith) in
            if_cases_by Told (is_nil d) (λ z. (pos 0, e, nil_Tells d a b z told))
              (λ z. (d, refl, told))))
  where
    Told : Numbers → Type 0
    Told k = (r : ℤ) × (after_numbers next k ≡ result r) × Tells r a b

-- The next round, behind both numbers.
collate-ended : (f : ℕ) → collate digits (suc f) (pos 0) (0 ∷ []) (0 ∷ []) ≡ result (pos 0)
unfolding collate letters ◌-ℤ◌
collate-ended f = refl

skip-leading : (x : ℕ) (xs : Bytes) → (x == 48) ≡ false → skip_zeros (x ∷ xs) ≡ (0, x ∷ xs)
unfolding skip_zeros
skip-leading x xs h = rw h refl

-- A round at two numbers without leading zeros.
number-round :
    (f x y : ℕ) (xs ys : Bytes)
    → isdigit x ≡ true
    → (x == 48) ≡ false
    → isdigit y ≡ true
    → (y == 48) ≡ false
    → collate digits (suc f) (pos 0) (x ∷ xs) (y ∷ ys)
      ≡ after_numbers (collate digits f (pos 0)) (digits (pos 0) (x ∷ xs) (y ∷ ys))
unfolding collate ◌-ℤ◌
number-round f x y xs ys h h' g g' = rw (h, g, skip-leading x xs h', skip-leading y ys g') refl

-- Of two strings of digits, neither of them with a first digit 0 (so also not the number 0), DICT's
-- result is negative where the value of the first is less than that of the second, zero where the
-- values are equal, and positive otherwise.
pub dictionary-values :
    (x y : ℕ) (xs ys : Bytes)
    → all_digits (x ∷ xs) ≡ true
    → (x == 48) ≡ false
    → all_digits (y ∷ ys) ≡ true
    → (y == 48) ≡ false
    → (d : ℤ) × (collate_dictionary (x ∷ xs ++ 0 ∷ []) (y ∷ ys ++ 0 ∷ []) ≡ result d)
      × (ltb_ℤ d (pos 0) ≡ ltb (value (x ∷ xs)) (value (y ∷ ys)))
      × (is_nil d ≡ (value (x ∷ xs) == value (y ∷ ys)))
unfolding collate_dictionary
dictionary-values x y xs ys h h' g g' =
    let fuel : length (x ∷ xs ++ 0 ∷ []) + 1 ≡ suc (suc (length xs + 1)) =
      omega (arith, length-append xs (0 ∷ [])) in
    let d = first_difference (pos 0) (x ∷ xs) (y ∷ ys) in
    let next = collate digits (suc (length xs + 1)) (pos 0) in
    let told =
      outcome-Tells (length xs) (length ys) d (value (x ∷ xs)) (value (y ∷ ys)) next
        (collate-ended (length xs + 1)) (longer-greater x y xs ys h (ground arith) g')
        (longer-greater y x ys xs g (ground arith) h')
        (λ e. first_difference-Tells (x ∷ xs) (y ∷ ys) (pos 0) h g (omega arith) refl) in
    (
      told.0,
      ap (λ f. collate digits f (pos 0) (x ∷ xs ++ 0 ∷ []) (y ∷ ys ++ 0 ∷ [])) fuel
          ∙ number-round (suc (length xs + 1)) x y (xs ++ 0 ∷ []) (ys ++ 0 ∷ []) (ground arith) h'
              (ground arith) g'
          ∙ ap (after_numbers next) (digits-outcome xs ys x y (pos 0) h g)
          ∙ told.1,
      told.2.0,
      told.2.1,
    )
