-- ===== src/Params/Insert.antt =====
-- InsertParam: the buffer is large enough, also where it grows, and holds the spliced text.
use tcl_dbi.Base.{
  ℕ, zero, suc, ◌+◌, ◌-◌, ◌≤◌, ◌<◌, ◌≡◌, refl, ap, subst, true, false, Option, some, List, [], ◌∷◌,
  ◌++◌, ◌==◌, append_assoc, append-nil, arith, length, length-append, length-take, length-drop,
  take, drop, max, Bool-cases, inl, inr, ltb, get_elem?,
}
use tcl_dbi.Memory.{Bytes, codes, NoNul, AllNoNul, alloc, sprintf}
use tcl_dbi.Memory.Yields
use tcl_dbi.Memory.Yields.{Yields, yields, eq_some}
use tcl_dbi.Memory.Laws.{length-alloc}
use tcl_dbi.Memory.Cursor.{NoNul-append, sprintf-c_string, Filled, alloc-Filled, write-Filled}
use tcl_dbi.Params.{
  Buffer, realloc, put, grow, put_parts, put_param, put_each, room, insert_param, is_null, slice,
  ending,
}
use tcl_dbi.Params.Parse.{Places}
use tcl_dbi.Params.Text.{doubled, value_text, spliced}

-- The buffer begins with `text`, and `left` bytes can follow.
record Good (text : Bytes) (left : ℕ) (b : Buffer) : Type 0 where
  cap : ℕ
  filled : Filled cap text (b.mem, b.pos)
  enough : length text + left ≤ b.size
  low : b.size ≤ cap

put-Good :
    (s : Bytes) (left : ℕ) {text : Bytes} {n : ℕ} {b : Buffer}
    → Good text n b
    → length s + left ≤ n
    → Yields (Good (text ++ s) left) (put s b)
unfolding put
put-Good s left {text} g h =
    Yields.bind (write-Filled s g.filled (omega (arith, g.enough, g.low))) λ mem f. yields (record {
      cap = g.cap;
      filled = f;
      enough = omega (arith, g.enough, length-append text s);
      low = g.low;
    })

pub take-append_le :
    (n : ℕ) (xs ys : Bytes) → length xs ≤ n → take n (xs ++ ys) ≡ xs ++ take (n - length xs) ys
take-append_le n [] ys h = let e : n - 0 ≡ n = omega arith in rw e
take-append_le zero (x ∷ xs) ys h = ground arith
take-append_le (suc n) (x ∷ xs) ys h =
    let e : suc n - suc (length xs) ≡ n - length xs = omega arith in
    rw e (ap (λ l. x ∷ l) (take-append_le n xs ys (omega arith)))

-- Whatever the size of the old allocation, the new one has `n` bytes and keeps the text.
realloc-Filled :
    (junk n : ℕ) {cap : ℕ} {text : Bytes} {mem : Bytes} {pos : ℕ}
    → Filled cap text (mem, pos)
    → length text ≤ n
    → Filled n text (realloc junk n mem, pos)
unfolding realloc
realloc-Filled junk n {cap} {text} {mem} {pos} f h = record {
  rest = take (n - length text) f.rest ++ alloc junk (n - length mem);
  holds = rw (f.holds, take-append_le n text f.rest h, append_assoc);
  at = f.at;
  size = omega (
    arith,
    f.size,
    length-append (take (n - length text) f.rest) (alloc junk (n - length mem)),
    length-take (n - length text) f.rest,
    length-alloc junk (n - length mem),
    ap length f.holds,
    length-append text f.rest,
  );
}

-- The budget of the quotes in a value: four are in the reserve, and each further one gets a byte.
abbrev spare : ℕ → ℕ
spare count = 4 - count

grow-Good :
    (junk count left : ℕ) {text : Bytes} {n : ℕ} {b : Buffer}
    → Good text n b
    → left + spare count ≤ n + spare (suc count) + 1
    → Good text left (grow junk (suc count) b)
unfolding grow
grow-Good junk count left {text} {n} {b} g h = elim (Bool-cases (ltb 4 (suc count))) [
  | inl e ↦ rw e (record {
    cap = b.size + 1;
    filled = realloc-Filled junk (b.size + 1) g.filled (omega (arith, g.enough));
    enough = ground (arith, g.enough);
    low = omega arith;
  })
  | inr e ↦
      rw e
        (record { cap = g.cap; filled = g.filled; enough = ground (arith, g.enough); low = g.low })
]

abbrev Returns : Bytes → ℕ → Option Buffer → Type 0
Returns text left = Yields (Good text left)

doubled-quote :
    (c : ℕ) (cs : Bytes) → (c == b'\'') ≡ true → doubled (c ∷ cs) ≡ codes "''" ++ doubled cs
unfolding doubled
doubled-quote c cs e = rw e

doubled-plain : (c : ℕ) (cs : Bytes) → (c == b'\'') ≡ false → doubled (c ∷ cs) ≡ c ∷ doubled cs
unfolding doubled
doubled-plain c cs e = rw e

put_parts-Good :
    (junk count left : ℕ) (part arg : Bytes) {text : Bytes} {n : ℕ} {b : Buffer}
    → Good text n b
    → length part + length arg + spare count + left ≤ n
    → Returns (text ++ (part ++ doubled arg)) left (put_parts junk count part arg b)
unfolding put_parts doubled
put_parts-Good junk count left part [] g h = rw append-nil (put-Good part left g (omega arith))
put_parts-Good junk count left part (c ∷ cs) {text} {n} {b} g h = elim (Bool-cases (c == b'\'')) [
  | inl e ↦
      rw (e, put_parts)
        (Yields.bind
          (put-Good part (2 + length cs + spare (suc count) + left)
            (grow-Good junk count (length part + 2 + length cs + spare (suc count) + left) g
              (omega arith))
            (omega arith))
          λ b g.
            Yields.bind
              (put-Good (codes "''") (length cs + spare (suc count) + left) g (omega arith))
              λ b g.
                subst (λ t. Returns t left (put_parts junk (suc count) [] cs b))
                  (quote_regroup (doubled cs))
                  (put_parts-Good junk (suc count) left [] cs g (omega arith)))
  | inr e ↦
      rw (e, put_parts)
        (subst (λ t. Returns (text ++ t) left (put_parts junk count (part ++ c ∷ []) cs b))
          (append_assoc part (c ∷ []) (doubled cs))
          (put_parts-Good junk count left (part ++ c ∷ []) cs g
            (omega (arith, length-append part (c ∷ [])))))
]
  where
    quote_regroup :
        (d : Bytes) → ((text ++ part) ++ codes "''") ++ d ≡ text ++ (part ++ (b'\'' ∷ b'\'' ∷ d))
    quote_regroup d = simp append_assoc

-- What one parameter takes at most.
abbrev need : Bytes → ℕ
need o = max 2 (length o) + 6

put_param-Good :
    (junk left : ℕ) (null : Option Bytes) (o : Bytes) {text : Bytes} {n : ℕ} {b : Buffer}
    → Good text n b
    → need o + left ≤ n
    → Returns (text ++ value_text null o) left (put_param junk null o b)
unfolding put_param
put_param-Good junk left null o {text} {n} {b} g h = elim (Bool-cases (is_null null o)) [
  | inl e ↦ rw e (put-Good (codes "NULL") left g (omega arith))
  | inr e ↦ rw e (
      Yields.bind (put-Good (codes "'") (length o + 4 + (1 + left)) g (omega arith)) λ b g.
        Yields.bind (put_parts-Good junk 0 (1 + left) [] o g (omega arith)) λ b g.
          subst (λ t. Returns t left (put (codes "'") b)) (closed (doubled o))
            (put-Good (codes "'") left g (omega arith)))
]
  where
    closed :
        (d : Bytes)
        → ((text ++ codes "'") ++ d) ++ codes "'" ≡ text ++ (codes "'" ++ (d ++ codes "'"))
    closed d = simp append_assoc

-- The end of the text, with its NUL.
ending-eq :
    (cmd text : Bytes) (prv n : ℕ) {b : Buffer}
    → Good text n b
    → length cmd - prv + 1 ≤ n
    → NoNul (text ++ drop prv cmd)
    → Yields (λ r. r ≡ (text ++ drop prv cmd, length (text ++ drop prv cmd))) (ending cmd (prv, b))
unfolding sprintf
ending-eq cmd text prv n {b} g h clean =
    Yields.bind
      (sprintf-c_string (drop prv cmd) g.filled
        (omega (arith, g.enough, g.low, length-drop prv cmd)) clean)
      λ mem e.
        let size : b.pos + length (drop prv cmd) ≡ length (text ++ drop prv cmd) =
          omega (arith, g.filled.at, length-append text (drop prv cmd)) in
        yields (λ i. (e i, size i))

-- Enough values for the places that are used.
abbrev pub Enough : List ℕ → List Bytes → Type 0
Enough ps os = length os ≤ length ps

abbrev Ends : Bytes → Bytes → Option (ℕ × Buffer) → Type 0
Ends cmd t m = Yields (λ c. Yields (λ r. r ≡ (t, length t)) (ending cmd c)) m

get_elem?-lt : (s : Bytes) (p c : ℕ) → get_elem? s p ≡ some c → p < length s
get_elem?-lt [] p c h = cc
get_elem?-lt (x ∷ s) zero c h = omega arith
get_elem?-lt (x ∷ s) (suc p) c h = omega (arith, get_elem?-lt s p c h)

length-slice : (a b : ℕ) (s : Bytes) → b ≤ length s → length (slice a b s) ≡ b - a
length-slice a b s h = omega (arith, length-take (b - a) (drop a s), length-drop a s)

NoNul-take : (n : ℕ) (s : Bytes) → NoNul s → NoNul (take n s)
NoNul-take zero s h = refl
NoNul-take (suc n) [] h = refl
NoNul-take (suc n) (c ∷ s) h = ground (arith, NoNul-take n s)

NoNul-drop : (n : ℕ) (s : Bytes) → NoNul s → NoNul (drop n s)
NoNul-drop zero s h = h
NoNul-drop (suc n) [] h = refl
NoNul-drop (suc n) (c ∷ s) h = NoNul-drop n s (ground arith)

NoNul-doubled : (s : Bytes) → NoNul s → NoNul (doubled s)
unfolding doubled
NoNul-doubled [] h = refl
NoNul-doubled (c ∷ s) h = ground (arith, NoNul-doubled s)

pub NoNul-value_text : (null : Option Bytes) (o : Bytes) → NoNul o → NoNul (value_text null o)
NoNul-value_text null o h = elim (Bool-cases (is_null null o)) [
  | inl e ↦ rw e refl
  | inr e ↦ rw e (NoNul-append (doubled o) (codes "'") (NoNul-doubled o h) refl)
]

module _ (junk : ℕ) (cmd : Bytes) (null : Option Bytes) where
  -- One place: the text up to it and the value; a byte is left over.
  put_one :
      (prv p : ℕ) (ps : List ℕ) (o : Bytes) (os : List Bytes) {text t : Bytes} {n : ℕ} {b : Buffer}
      → Places cmd prv (p ∷ ps)
      → Good text n b
      → length cmd - prv + room (o ∷ os) ≤ n
      → ((b : Buffer)
          → Good
              ((text ++ slice prv p cmd) ++ value_text null o)
              (length cmd - suc p + room os + 1)
              b
          → Ends cmd t (put_each junk cmd null (suc p) ps os b))
      → Ends cmd t (put_each junk cmd null prv (p ∷ ps) (o ∷ os) b)
  unfolding put_each room
  put_one prv p ps o os {b} (le, e, places) g h next =
      Yields.bind
        (put-Good (slice prv p cmd) (need o + (length cmd - suc p + room os + 1)) g
          (omega (arith, inside, l)))
        λ b g.
          Yields.bind
            (put_param-Good junk (length cmd - suc p + room os + 1) null o g (omega arith))
            (λ b g. next b g)
    where
      inside : p < length cmd
      inside = get_elem?-lt cmd p _ e

      l : length (slice prv p cmd) ≡ p - prv
      l = length-slice prv p cmd (omega (arith, inside))

  put_next :
      (prv p : ℕ) (ps : List ℕ) (o : Bytes) (os : List Bytes) (text : Bytes) (b : Buffer)
      → (let done = (text ++ slice prv p cmd) ++ value_text null o in
          NoNul (done ++ spliced cmd null (suc p) ps os)
          → Ends cmd
              (done ++ spliced cmd null (suc p) ps os)
              (put_each junk cmd null (suc p) ps os b))
      → NoNul (text ++ spliced cmd null prv (p ∷ ps) (o ∷ os))
      → Ends cmd
          (text ++ spliced cmd null prv (p ∷ ps) (o ∷ os))
          (put_each junk cmd null (suc p) ps os b)
  put_next prv p ps o os text b h clean =
      subst (λ t. NoNul t → Ends cmd t (put_each junk cmd null (suc p) ps os b))
        (regroup (slice prv p cmd) (value_text null o) (spliced cmd null (suc p) ps os)) h clean
    where
      regroup : (u v w : Bytes) → ((text ++ u) ++ v) ++ w ≡ text ++ (u ++ (v ++ w))
      regroup u v w = simp append_assoc

  put_each-Ends :
      (prv : ℕ) (ps : List ℕ) (os : List Bytes) (text : Bytes) {n : ℕ} {b : Buffer}
      → Places cmd prv ps
      → Enough ps os
      → Good text n b
      → length cmd - prv + room os + 1 ≤ n
      → NoNul (text ++ spliced cmd null prv ps os)
      → Ends cmd (text ++ spliced cmd null prv ps os) (put_each junk cmd null prv ps os b)
  unfolding put_each room
  put_each-Ends prv ps [] text {n} places enough g h clean =
      yields (ending-eq cmd text prv n g (omega arith) clean)
  put_each-Ends prv [] (o ∷ os) text places enough g h clean = ground arith
  put_each-Ends prv (p ∷ ps) (o ∷ os) text places enough g h clean =
      put_one prv p ps o os places g (omega arith) λ b g.
        put_next prv p ps o os text b
          (λ c.
            put_each-Ends (suc p) ps os ((text ++ slice prv p cmd) ++ value_text null o) places.2
              (omega arith) g (omega arith) c)
          clean

  NoNul-spliced :
      (prv : ℕ) (ps : List ℕ) (os : List Bytes)
      → NoNul cmd
      → AllNoNul os
      → NoNul (spliced cmd null prv ps os)
  NoNul-spliced prv ps [] h k = NoNul-drop prv cmd h
  NoNul-spliced prv [] (o ∷ os) h k = NoNul-drop prv cmd h
  NoNul-spliced prv (p ∷ ps) (o ∷ os) h k =
      NoNul-append (slice prv p cmd) (value_text null o ++ spliced cmd null (suc p) ps os)
        (NoNul-take (p - prv) (drop prv cmd) (NoNul-drop prv cmd h))
        (NoNul-append (value_text null o) (spliced cmd null (suc p) ps os)
          (NoNul-value_text null o (ground arith)) (NoNul-spliced (suc p) ps os h (ground arith)))

  -- For texts with no NUL byte, and at least as many places of `?` as values, of which there is one
  -- or more, InsertParam stores only inside its buffer, and its result is the text in which the first
  -- places are replaced by the values as SQL literals (NULL for the null value), with its length;
  -- so in mysql, whose first buffer has one byte more, and in postgresql and sqlite.
  pub insert_param-spliced :
      (extra : ℕ) (ps : List ℕ) (o : Bytes) (os : List Bytes)
      → Places cmd 0 ps
      → Enough ps (o ∷ os)
      → NoNul cmd
      → AllNoNul (o ∷ os)
      → insert_param extra junk cmd ps null (o ∷ os)
        ≡ some (spliced cmd null 0 ps (o ∷ os), length (spliced cmd null 0 ps (o ∷ os)))
  unfolding insert_param
  insert_param-spliced extra [] o os places enough h k = ground arith
  insert_param-spliced extra (p ∷ ps) o os places enough h k = eq_some (
      Yields.bind
        (put_one 0 p ps o os places start (omega arith) λ b g.
          put_next 0 p ps o os [] b
            (λ c.
              put_each-Ends (suc p) ps os (slice 0 p cmd ++ value_text null o) places.2
                (omega arith) g (omega arith) c)
            (NoNul-spliced 0 (p ∷ ps) (o ∷ os) h k))
        λ c r. r)
    where
      start : Good [] (length cmd + room (o ∷ os)) (record {
        mem = alloc junk (length cmd + room (o ∷ os) + extra);
        size = length cmd + room (o ∷ os);
        pos = 0;
      })
      start = record {
        cap = length cmd + room (o ∷ os) + extra;
        filled = alloc-Filled junk _;
        enough = omega arith;
        low = omega arith;
      }
