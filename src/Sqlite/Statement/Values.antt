-- ===== src/Sqlite/Statement/Values.antt =====
-- Values as literals in a buffer: what the loops over fields and values append, and its room.
use tcl_dbi.Base.{
  ℕ, ◌+◌, ◌-◌, ◌≤◌, ◌<◌, ◌≡◌, refl, sym, subst, Bool, true, ◌&&◌, Option, List, [], ◌∷◌, ◌++◌, ◌==◌,
  map, append_assoc, append-nil, arith, length, length-append, take, max, Bool-cases, inl, inr,
  if◌then◌else◌,
}
use tcl_dbi.Memory.{Bytes, codes, no_nul, NoNul}
use tcl_dbi.Memory.Yields
use tcl_dbi.Memory.Yields.{Yields, yields}
use tcl_dbi.Memory.Cursor.{Cursor, Filled, emit-Filled, put_bytes-Filled, NoNul-append}
use tcl_dbi.Params.{is_null}
use tcl_dbi.Params.Text.{doubled, value_text}
use tcl_dbi.Params.Insert.{take-append_le}
use tcl_dbi.Sqlite3.Statement.Text.{each}
use tcl_dbi.Sqlite.Statement.{count_single_quote, copy_value, cpvalue, put_value, argument_room}

abbrev stored : ℕ → Bytes
stored b = if b == b'\'' then b ∷ b'\'' ∷ [] else b ∷ []

doubled-cons : (b : ℕ) (bs : Bytes) → doubled (b ∷ bs) ≡ stored b ++ doubled bs
unfolding doubled
doubled-cons b bs = ground arith

copy_value-Filled :
    {cap : ℕ} (text s : Bytes) {c : Cursor}
    → Filled cap text c
    → length text + length (doubled s) ≤ cap
    → Yields (Filled cap (text ++ doubled s)) (copy_value s c)
unfolding copy_value doubled
copy_value-Filled text [] f h = rw append-nil (yields f)
copy_value-Filled {cap} text (b ∷ bs) {c} f h =
    let n : length (doubled (b ∷ bs)) ≡ length (stored b) + length (doubled bs) =
      rw (doubled-cons b bs) (length-append (stored b) (doubled bs)) in
    rw (doubled-cons b bs, ← append_assoc)
      (Yields.bind (put_bytes-Filled text (stored b) f (omega (arith, h, n))) λ c' f'.
        copy_value-Filled (text ++ stored b) bs f'
          (omega (arith, h, n, length-append text (stored b))))

abbrev pub literal : Bytes → Bytes
literal s = codes "'" ++ (doubled s ++ codes "'")

cpvalue-Filled :
    {cap : ℕ} (text s : Bytes) {c : Cursor}
    → Filled cap text c
    → length text + length (literal s) ≤ cap
    → Yields (Filled cap (text ++ literal s)) (cpvalue s c)
unfolding cpvalue
cpvalue-Filled text s {c} f h =
    let n = length-append (doubled s) (codes "'") in
    let m = length-append text (codes "'") in
    let k = length-append (text ++ codes "'") (doubled s) in
    rw
      (
        ← append_assoc text (codes "'") (doubled s ++ codes "'"),
        ← append_assoc (text ++ codes "'") (doubled s) (codes "'"),
      )
      (Yields.bind (put_bytes-Filled text (codes "'") f (omega (arith, h, n))) λ c' f'.
        Yields.bind (copy_value-Filled (text ++ codes "'") s f' (omega (arith, h, n, m))) λ c'' f''.
          put_bytes-Filled ((text ++ codes "'") ++ doubled s) (codes "'") f''
            (omega (arith, h, n, m, k)))

put_value-Filled :
    {cap : ℕ} (text : Bytes) (null : Option Bytes) (s : Bytes) (step_null step : ℕ) (v : Bytes)
    {c : Cursor}
    → Filled cap text c
    → step_null ≡ length s + 4
    → step ≡ length s
    → length text + length (s ++ value_text null v) < cap
    → Yields (Filled cap (text ++ (s ++ value_text null v))) (put_value null s step_null step v c)
unfolding put_value
put_value-Filled text null s step_null step v {c} f e k h = elim (Bool-cases (is_null null v)) [
  | inl n ↦
      let h' : length text + length (s ++ codes "NULL") < _ = rw n at h in
      rw n (
        emit-Filled (s ++ codes "NULL") step_null f
          (omega (arith, e, length-append s (codes "NULL"))) h')
  | inr n ↦
      let h' : length text + length (s ++ literal v) < _ = rw n at h in
      let m = length-append s (literal v) in
      rw (n, ← append_assoc text s (literal v))
        (Yields.bind (emit-Filled s step f k (omega (arith, h', m)))
          λ c' f'. cpvalue-Filled (text ++ s) v f' (omega (arith, h', m, length-append text s)))
]

-- The same, where the text and the value together are `t`.
pub put_value-text :
    {cap : ℕ} (text : Bytes) (null : Option Bytes) (s : Bytes) (step_null step : ℕ) (v t : Bytes)
    {c : Cursor}
    → s ++ value_text null v ≡ t
    → Filled cap text c
    → step_null ≡ length s + 4
    → step ≡ length s
    → length text + length t < cap
    → Yields (Filled cap (text ++ t)) (put_value null s step_null step v c)
put_value-text {cap} text null s step_null step v t {c} q f e k h =
    subst (λ t. Yields (Filled cap (text ++ t)) (put_value null s step_null step v c)) q
      (put_value-Filled text null s step_null step v f e k
        (subst (λ t. length text + length t < cap) (sym q) h))

length-doubled : (s : Bytes) → length (doubled s) ≡ length s + count_single_quote s
unfolding doubled count_single_quote
length-doubled [] = refl
length-doubled (b ∷ bs) = ground (arith, length-doubled bs)

count-append :
    (s t : Bytes) → count_single_quote (s ++ t) ≡ count_single_quote s + count_single_quote t
unfolding count_single_quote
count-append [] t = omega arith
count-append (b ∷ bs) t = omega (arith, count-append bs t)

count-le-take :
    (s t : Bytes) (n : ℕ)
    → length s ≤ n
    → count_single_quote s ≤ count_single_quote (take n (s ++ t))
count-le-take s t n h =
    rw (take-append_le n s t h) (omega (arith, count-append s (take (n - length s) t)))

-- The room of an argument is enough for it as a value, quotes included.
pub value_room :
    (beyond extra : ℕ) (null : Option Bytes) (v : Bytes)
    → length (value_text null v) + extra ≤ argument_room beyond (extra + 2) v
value_room beyond extra null v = elim (Bool-cases (is_null null v)) [
  | inl n ↦ rw n (omega arith)
  | inr n ↦ rw n (
      omega (
        arith,
        length-append (doubled v) (codes "'"),
        length-doubled v,
        count-le-take v (0 ∷ beyond ∷ []) (max 2 (length v)) (omega arith),
      ))
]

module _ {A : Type 0} where
  -- The texts of the items of a list, one after the other.
  unfoldable pub chain : (A → Bytes) → List A → Bytes
  chain item [] = []
  chain item (x ∷ xs) = item x ++ chain item xs

  pub chain-each :
      (sep : Bytes) (h : A → Bytes) (xs : List A) → chain (λ x. sep ++ h x) xs ≡ each sep (map h xs)
  unfolding chain each
  chain-each sep h [] = refl
  chain-each sep h (x ∷ xs) = rw (append_assoc, chain-each sep h xs)

abbrev pub pairs_no_nul : List (Bytes × Bytes) → Bool
pairs_no_nul [] = true
pairs_no_nul ((f, v) ∷ fvs) = (no_nul f && no_nul v) && pairs_no_nul fvs

abbrev pub PairsNoNul : List (Bytes × Bytes) → Type 0
PairsNoNul fvs = pairs_no_nul fvs ≡ true

pub NoNul-chain :
    (item : Bytes × Bytes → Bytes)
    → ((f v : Bytes) → NoNul f → NoNul v → NoNul (item (f, v)))
    → (fvs : List (Bytes × Bytes)) → PairsNoNul fvs
    → NoNul (chain item fvs)
unfolding chain
NoNul-chain item h [] c = refl
NoNul-chain item h ((f, v) ∷ fvs) c =
    NoNul-append (item (f, v)) (chain item fvs) (h f v (ground arith) (ground arith))
      (NoNul-chain item h fvs (ground arith))
