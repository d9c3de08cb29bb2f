-- ===== src/Sqlite3/Import/Columns.antt =====
-- A line is cut back into the columns that it was joined from.
use tcl_dbi.Base.{
  ℕ, zero, suc, ◌+◌, ◌-◌, ◌<◌, ◌≤◌, ◌≡◌, refl, sym, ap, ◌∙◌, Bool, true, false, not, List, [], ◌∷◌,
  ◌++◌, ◌==◌, ◌&&◌, ltb, length, if◌then◌else◌, arith, append-nil, ==_self, lt→ltb, ltb→lt,
  Bool-cases, inl, inr,
}
use tcl_dbi.Memory.{Bytes}
use tcl_dbi.Sqlite3.Import.{starts_with, add_byte, cut, columns}

abbrev pub joined : Bytes → List Bytes → Bytes
joined separator [] = []
joined separator (c ∷ []) = c
joined separator (c ∷ d ∷ cs) = c ++ (separator ++ joined separator (d ∷ cs))

-- The byte `b` is not in the text.
abbrev pub lacks : ℕ → Bytes → Bool
lacks b [] = true
lacks b (c ∷ cs) = not (b == c) && lacks b cs

abbrev pub all_lack : ℕ → List Bytes → Bool
all_lack b [] = true
all_lack b (c ∷ cs) = lacks b c && all_lack b cs

skip_over :
    (separator s rest : Bytes) (count i : ℕ)
    → columns separator count i (length s) (s ++ rest) ≡ columns separator count i 0 rest
unfolding columns
skip_over separator [] rest count i = refl
skip_over separator (c ∷ cs) rest count i = skip_over separator cs rest count i

starts_with_self : (s rest : Bytes) → starts_with s (s ++ rest) ≡ true
starts_with_self [] rest = refl
starts_with_self (c ∷ cs) rest = rw (==_self c) (starts_with_self cs rest)

abbrev prepend : Bytes → List Bytes × ℕ → List Bytes × ℕ
prepend [] r = r
prepend (x ∷ c) r = add_byte x (prepend c r)

prepend_lem : (c : Bytes) (rest : List Bytes) (n : ℕ) → prepend c ([] ∷ rest, n) ≡ (c ∷ rest, n)
prepend_lem [] rest n = refl
prepend_lem (x ∷ c) rest n = rw (prepend_lem c rest n) refl

prepend-count : (c : Bytes) (r : List Bytes × ℕ) → (prepend c r).1 ≡ r.1
prepend-count [] r = refl
prepend-count (x ∷ c) r = add-count x (prepend c r) ∙ prepend-count c r
  where
    add-count : (x : ℕ) (r : List Bytes × ℕ) → (add_byte x r).1 ≡ r.1
    add-count x ([], n) = refl
    add-count x (c ∷ cs, n) = refl

-- A column without the separator's first byte is read over.
read_column :
    (b : ℕ) (separator c rest : Bytes) (count i : ℕ)
    → lacks b c ≡ true
    → columns (b ∷ separator) count i 0 (c ++ rest)
      ≡ prepend c (columns (b ∷ separator) count i 0 rest)
unfolding columns
read_column b separator [] rest count i h = refl
read_column b separator (x ∷ c) rest count i h =
    let other : (b == x) ≡ false = ground arith in
    rw (other, read_column b separator c rest count i (ground arith)) refl

less_one : (n : ℕ) → suc n - 1 ≡ n
less_one n = omega arith

-- At a separator: the next column, if the table has one.
next_column :
    (b : ℕ) (separator rest : Bytes) (count i : ℕ)
    → i + 1 < count
    → columns (b ∷ separator) count i 0 (b ∷ separator ++ rest)
      ≡ cut true (columns (b ∷ separator) count (i + 1) 0 rest)
unfolding columns
next_column b separator rest count i h =
    rw
      (
        ==_self b,
        starts_with_self separator rest,
        lt→ltb (i + 1) count h,
        less_one (length separator),
      )
      (ap (cut true) (skip_over (b ∷ separator) separator rest count (i + 1)))

columns-nil : (separator : Bytes) (count i : ℕ) → columns separator count i 0 [] ≡ ([] ∷ [], i)
unfolding columns
columns-nil separator count i = refl

pub columns-joined :
    (b : ℕ) (separator : Bytes) (count i : ℕ) (c : Bytes) (cs : List Bytes)
    → all_lack b (c ∷ cs) ≡ true
    → i + length (c ∷ cs) ≤ count
    → columns (b ∷ separator) count i 0 (joined (b ∷ separator) (c ∷ cs)) ≡ (c ∷ cs, i + length cs)
columns-joined b separator count i c [] h g =
    let e : c ++ [] ≡ c = append-nil c in
    ap (columns (b ∷ separator) count i 0) (sym e)
    ∙ read_column b separator c [] count i (ground arith)
    ∙ ap (prepend c) (columns-nil (b ∷ separator) count i)
    ∙ prepend_lem c [] i
    ∙ ap (λ n. (c ∷ [], n)) (omega arith)
columns-joined b separator count i c (d ∷ cs) h g =
    read_column b separator c ((b ∷ separator) ++ joined (b ∷ separator) (d ∷ cs)) count i
      (ground arith)
    ∙ ap (prepend c) (
        next_column b separator (joined (b ∷ separator) (d ∷ cs)) count i (omega arith)
        ∙ ap (cut true)
            (columns-joined b separator count (i + 1) d cs (ground arith) (omega arith)))
    ∙ prepend_lem c (d ∷ cs) (i + 1 + length cs)
    ∙ ap (λ n. (c ∷ d ∷ cs, n)) (omega arith)

cut-count : (b : Bool) (r : List Bytes × ℕ) → (cut b r).1 ≡ r.1
cut-count true (rest, n) = refl
cut-count false (rest, n) = refl

add_byte-count : (x : ℕ) (r : List Bytes × ℕ) → (add_byte x r).1 ≡ r.1
add_byte-count x ([], n) = refl
add_byte-count x (c ∷ cs, n) = refl

columns-count :
    (separator : Bytes) (count i skip : ℕ) (z : Bytes) → i ≤ (columns separator count i skip z).1
unfolding columns
columns-count separator count i skip [] = omega arith
columns-count separator count i (suc skip) (c ∷ z) = columns-count separator count i skip z
columns-count separator count i zero (c ∷ z) = elim (Bool-cases (starts_with separator (c ∷ z))) [
  | inl e ↦
      rw (e, cut-count (ltb (i + 1) count))
        (omega (
          arith,
          columns-count separator count (i + 1)
              (if ltb (i + 1) count then length separator - 1 else 0) z,
        ))
  | inr e ↦ rw (e, add_byte-count c) (columns-count separator count i 0 z)
]

-- A separator behind the last column of the table is counted.
excess_column :
    (b : ℕ) (separator rest : Bytes) (count i : ℕ)
    → i + 1 ≤ (columns (b ∷ separator) count i 0 (b ∷ separator ++ rest)).1
unfolding columns
excess_column b separator rest count i =
    rw (==_self b, starts_with_self separator rest, cut-count (ltb (i + 1) count))
      (columns-count (b ∷ separator) count (i + 1)
        (if ltb (i + 1) count then suc (length separator) - 1 else 0) (separator ++ rest))

pub columns-excess :
    (b : ℕ) (separator : Bytes) (count i : ℕ) (c : Bytes) (cs : List Bytes)
    → all_lack b (c ∷ cs) ≡ true
    → i < count
    → count < i + length (c ∷ cs)
    → count ≤ (columns (b ∷ separator) count i 0 (joined (b ∷ separator) (c ∷ cs))).1
columns-excess b separator count i c [] h g k = absurd (omega arith)
columns-excess b separator count i c (d ∷ cs) h g k =
    let rest = joined (b ∷ separator) (d ∷ cs) in
    let over = read_column b separator c ((b ∷ separator) ++ rest) count i (ground arith) in
    rw (over, prepend-count c)
      (elim (Bool-cases (ltb (i + 1) count)) [
        | inl e ↦
            rw (next_column b separator rest count i (ltb→lt (i + 1) count e), cut-count true)
              (columns-excess b separator count (i + 1) d cs (ground arith) (ltb→lt (i + 1) count e)
                (omega arith))
        | inr e ↦ omega (arith, excess_column b separator rest count i, ltb_false (i + 1) count e)
      ])
  where
    ltb_false : (m n : ℕ) → ltb m n ≡ false → n ≤ m
    ltb_false m n h = ground arith
