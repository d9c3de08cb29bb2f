-- ===== src/Params/Exec.antt =====
-- The queries of exec: the text with its parameters replaced, and how such a text is read again.
use tcl_dbi.Base.{
  ℕ, suc, ◌+◌, ◌≡◌, ◌≢◌, refl, sym, ap, subst, Bool, true, false, Option, none, some, List, [], ◌∷◌,
  ◌++◌, ◌==◌, append_assoc, arith, length, length-append, Bool-cases, inl, inr, if◌then◌else◌,
  ==_iff, not, ◌&&◌,
}
use mathlib.Core.Option
use tcl_dbi.Memory.{Bytes, codes, NoNul, AllNoNul, IsInt}
use tcl_dbi.Params.{
  Query, text, literal, scan, peek, parse_statement, run, wrong_number, with_values, query,
  postgresql_query, sqlite_query, room,
}
use tcl_dbi.Params.Text.{doubled, value_text, spliced}
use tcl_dbi.Params.Parse.{parse_statement-Places}
use tcl_dbi.Params.Insert.{insert_param-spliced}

module _ (extra junk : ℕ) (cmd : Bytes) (null : Option Bytes) (os : List Bytes)
    (cmd_clean : NoNul cmd) (clean : AllNoNul os) where
  with_values-spliced :
      (os : List Bytes)
      → AllNoNul os
      → length os ≡ length (parse_statement cmd)
      → let t = spliced cmd null 0 (parse_statement cmd) os in
        with_values extra junk cmd (parse_statement cmd) null os ≡ run t (length t)
  unfolding with_values
  with_values-spliced [] clean e = refl
  with_values-spliced (o ∷ os) clean e = rw (
      insert_param-spliced junk cmd null extra (parse_statement cmd) o os
        (parse_statement-Places cmd) (omega arith) cmd_clean clean)

  pub query-spliced :
      length os ≡ length (parse_statement cmd)
      → let t = spliced cmd null 0 (parse_statement cmd) os in
        query extra junk cmd null os ≡ run t (length t)
  unfolding query
  query-spliced e =
      rw ((==_iff (length os) (length (parse_statement cmd))).1 e) (with_values-spliced os clean e)

-- A query that is run or refused, without a fault.
pub data Settled : Query → Type 0 where
  wrong : Settled wrong_number
  runs : {sql : Bytes} {n : ℕ} → Settled (run sql n)

module _ (junk : ℕ) (cmd : Bytes) (null : Option Bytes) (os : List Bytes) where
  pub queries-spliced :
      NoNul cmd
      → AllNoNul os
      → length os ≡ length (parse_statement cmd)
      → IsInt (length cmd + room os + length os)
      → let t = spliced cmd null 0 (parse_statement cmd) os in
        (postgresql_query junk cmd null os ≡ run t (length t))
        × (sqlite_query junk cmd null os ≡ run t (length t))
  unfolding postgresql_query sqlite_query
  queries-spliced h k e int =
      (query-spliced 0 junk cmd null os h k e, query-spliced 0 junk cmd null os h k e)

  -- Where the number of values is not that of the places of parameters, exec of each of the backends
  -- runs nothing and reports a wrong number of arguments.
  query-wrong_number :
      (extra : ℕ)
      → length os ≢ length (parse_statement cmd)
      → query extra junk cmd null os ≡ wrong_number
  unfolding query
  query-wrong_number extra e = elim (Bool-cases (length os == length (parse_statement cmd))) [
    | inl h ↦ elim (e ((==_iff (length os) (length (parse_statement cmd))).0 h)) [ ]
    | inr h ↦ rw h
  ]

  pub query-Settled : (extra : ℕ) → NoNul cmd → AllNoNul os → Settled (query extra junk cmd null os)
  unfolding query
  query-Settled extra h k = elim (Bool-cases (length os == length (parse_statement cmd))) [
    | inl e ↦
        subst Settled
          (sym (
            query-spliced extra junk cmd null os h k
              ((==_iff (length os) (length (parse_statement cmd))).0 e)))
          runs
    | inr e ↦ rw e wrong
  ]

-- No backslash among the bytes.
abbrev pub plain : Bytes → Bool
plain [] = true
plain (c ∷ cs) = not (c == b'\\') && plain cs

scan-doubled :
    (i : ℕ) (o rest : Bytes)
    → plain o ≡ true
    → scan (literal b'\'') i (doubled o ++ b'\'' ∷ rest)
      ≡ scan text (i + length (doubled o) + 1) rest
unfolding scan doubled
scan-doubled i [] rest h = ap (λ n. scan text n rest) (omega arith)
scan-doubled i (c ∷ cs) rest h = elim (Bool-cases (c == b'\'')) [
  | inl e ↦
      rw (e, doubled, scan)
        (let n : i + suc (suc (length (doubled cs))) + 1 ≡ suc (suc i) + length (doubled cs) + 1 =
            omega arith in
          rw n (scan-doubled (suc (suc i)) cs rest (ground arith)))
  | inr e ↦
      let n : i + suc (length (doubled cs)) + 1 ≡ suc i + length (doubled cs) + 1 = omega arith in
      let b : (c == b'\\') ≡ false = ground arith in
      rw (e, doubled, scan, b, e, n) (scan-doubled (suc i) cs rest (ground arith))
]

-- A value that holds no backslash cannot leave its literal: behind the literal the search for
-- parameters goes on as in plain text, and no `?` of the value is taken for a parameter.
pub value_text-closed :
    (i : ℕ) (o rest : Bytes)
    → plain o ≡ true
    → scan text i (value_text none o ++ rest) ≡ scan text (i + length (value_text none o)) rest
unfolding scan
value_text-closed i o rest h =
    let n : i + length (value_text none o) ≡ suc i + length (doubled o) + 1 =
      omega (arith, length-append (doubled o) (codes "'")) in
    rw (n, append_assoc) (scan-doubled (suc i) o rest h)

-- SQL reads a literal up to a quote that is not doubled.
abbrev unquote_body : Bytes → Option (Bytes × Bytes)
unquote_body [] = none
unquote_body (c ∷ []) = if c == b'\'' then some ([], []) else none
unquote_body (c ∷ d ∷ cs) =
    let more = Option.map (λ r. (c ∷ r.0, r.1)) (unquote_body (d ∷ cs)) in
    let twice = Option.map (λ r. (c ∷ r.0, r.1)) (unquote_body cs) in
    if c == b'\'' then (if d == b'\'' then twice else some ([], d ∷ cs)) else more

abbrev pub unquote : Bytes → Option (Bytes × Bytes)
unquote [] = none
unquote (c ∷ cs) = if c == b'\'' then unquote_body cs else none

unquote_body-cons :
    (c : ℕ) (cs : Bytes)
    → (c == b'\'') ≡ false
    → unquote_body (c ∷ cs) ≡ Option.map (λ r. (c ∷ r.0, r.1)) (unquote_body cs)
unquote_body-cons c [] e = rw e
unquote_body-cons c (d ∷ cs) e = rw e

unquote_body-doubled :
    (o rest : Bytes)
    → (peek rest == b'\'') ≡ false
    → unquote_body (doubled o ++ b'\'' ∷ rest) ≡ some (o, rest)
unfolding doubled
unquote_body-doubled [] [] h = refl
unquote_body-doubled [] (d ∷ rest) h = rw h
unquote_body-doubled (c ∷ cs) rest h = elim (Bool-cases (c == b'\'')) [
  | inl e ↦
      rw (e, doubled, unquote_body-doubled cs rest h)
        (ap (λ x. some (x ∷ cs, rest)) (sym ((==_iff c b'\'').0 e)))
  | inr e ↦ rw (
    e,
    doubled,
    unquote_body-cons c (doubled cs ++ b'\'' ∷ rest) e,
    unquote_body-doubled cs rest h,
  )
]

-- SQL reads the literal of a value as this value, where no further quote follows it.
pub unquote-value_text :
    (o rest : Bytes)
    → (peek rest == b'\'') ≡ false
    → unquote (value_text none o ++ rest) ≡ some (o, rest)
unquote-value_text o rest h = rw append_assoc (unquote_body-doubled o rest h)
