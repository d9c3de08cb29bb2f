-- ===== src/Firebird/Split/Cuts.antt =====
-- What SplitSQL leaves in `lines`, and when it stays inside the text.
use Prim.Native.Nat.{◌≤◌, ◌<◌}
use tcl_dbi.Base.{
  ℕ, zero, suc, ◌+◌, ◌-◌, ◌≡◌, refl, subst, Bool, true, false, not, ◌&&◌, ◌||◌, some, List, [], ◌∷◌,
  ◌++◌, ◌==◌, ◌⊎◌, inl, inr, ltb, length, drop, get_or, get_elem?, arith, if_cases, if_cases_by,
  length-drop,
}
use tcl_dbi.Base.Int.{pos}
use tcl_dbi.Memory.{Bytes}
use tcl_dbi.Firebird.Split.{
  white, whites, skip_white, skip_until, declares, Scan, Progress, over, again, beyond, is_zero,
  newline, cut_statement, end_statement, semicolon, quote, at_char, continue, scan_lines,
  has_semicolon, split_sql,
}

-- The lines that a scan has found, and where it goes on. The first statement starts behind the
-- white space, each ends at a `;` and is not empty, and the next one starts behind the white space
-- after it.
pub data Cuts (text : Bytes) : ℕ → List (ℕ × ℕ) → Type 0 where
  none_yet : Cuts text (skip_white text 0) []
  one_more :
      {start size : ℕ} {lines : List (ℕ × ℕ)}
      → Cuts text start lines
      → 0 < size
      → get_elem? text (start + size) ≡ some 59
      → Cuts text (skip_white text (suc (start + size))) (lines ++ (start, size) ∷ [])

-- A quote, or a place at which `declare` or `DECLARE` stands.
pub data Strays (text : Bytes) : Type 0 where
  quoted : (p : ℕ) → get_or text p 0 ≡ 39 → Strays text
  declared : (p : ℕ) → declares text p ≡ true → Strays text

-- The scan ends: with such lines, or behind the text, which then has a quote or such a word.
pub data Splits (text : Bytes) : Progress → Type 0 where
  at_end : {start : ℕ} {lines : List (ℕ × ℕ)} → Cuts text start lines → Splits text (over lines)
  outside : Strays text → Splits text beyond

data Inside (text : Bytes) (s : Scan) : Type 0 where
  inside :
      Cuts text s.start s.lines
      → s.start ≤ s.i
      → s.i ≤ suc (length text)
      → (s.i ≤ length text) ⊎ Strays text
      → Inside text s

data Goes (text : Bytes) (i : ℕ) : Progress → Type 0 where
  stops : {p : Progress} → Splits text p → Goes text i p
  goes : {s : Scan} → Inside text s → i < s.i → Goes text i (again s)

whites_le : (xs : Bytes) → whites xs ≤ length xs
unfolding whites
whites_le [] = omega arith
whites_le (c ∷ cs) =
    if_cases (λ n. n ≤ suc (length cs)) (white c) {x = suc (whites cs)} {y = 0}
      (omega (arith, whites_le cs)) (omega arith)

skip_white_le : (text : Bytes) (i : ℕ) → i ≤ length text → skip_white text i ≤ length text
unfolding skip_white
skip_white_le text i h = omega (arith, whites_le (drop i text), length-drop i text, h)

skip_white_ge : (text : Bytes) (i : ℕ) → i ≤ skip_white text i
unfolding skip_white
skip_white_ge text i = omega arith

get_elem?_of : (text : Bytes) (i : ℕ) → get_or text i 0 ≡ 59 → get_elem? text i ≡ some 59
get_elem?_of [] i h = absurd (omega (arith, h))
get_elem?_of (c ∷ cs) zero h = rw h refl
get_elem?_of (c ∷ cs) (suc i) h = get_elem?_of cs i h

get_or_lt : (text : Bytes) (i : ℕ) → get_or text i 0 ≡ 59 → i < length text
get_or_lt [] i h = absurd (omega (arith, h))
get_or_lt (c ∷ cs) zero h = omega arith
get_or_lt (c ∷ cs) (suc i) h = omega (arith, get_or_lt cs i h)

cut_statement-Goes :
    (text : Bytes) (s : Scan)
    → Inside text s
    → ((s.i - s.start) == 0) ≡ false
    → get_or text s.i 0 ≡ 59
    → Goes text s.i (cut_statement text s)
unfolding cut_statement
cut_statement-Goes text s (inside c b l p) z h =
    let e : s.start + (s.i - s.start) ≡ s.i = omega (arith, b) in
    let c' : Cuts text (skip_white text (suc s.i)) (s.lines ++ (s.start, s.i - s.start) ∷ []) =
      subst (λ i. Cuts text (skip_white text (suc i)) (s.lines ++ (s.start, s.i - s.start) ∷ [])) e
        (one_more c (ground arith) (rw e (get_elem?_of text s.i h))) in
    let le = skip_white_le text (suc s.i) (get_or_lt text s.i h) in
    if_cases (Goes text s.i) _ (stops (at_end c')) (
      goes (inside c' (omega arith) (omega (arith, le)) (inl le))
        (omega (arith, skip_white_ge text (suc s.i))))

and_right : (a b : Bool) → (a && b) ≡ true → b ≡ true
and_right true b h = h
and_right false b h = ground arith

end_statement-Goes :
    (text : Bytes) (s : Scan)
    → Inside text s
    → s.i ≤ length text
    → ((s.i - s.start) == 0) ≡ false
    → ((get_or text s.i 0 == 59) || (s.i == length text)) ≡ true
    → Goes text s.i (end_statement text s)
unfolding end_statement
end_statement-Goes text s (inside c b l p) i z h =
    if_cases_by (Goes text s.i) ((s.level || not (is_zero s.blevel)) && not (s.i == length text))
      (λ k.
        goes (inside c (omega (arith, b)) (omega (arith, i)) (inl (ground arith))) (omega arith))
      (λ k.
        if_cases_by (Goes text s.i) (s.i == length text) (λ t. stops (at_end c))
          (λ t. cut_statement-Goes text s (inside c b l p) z (ground arith)))

semicolon-Goes :
    (text : Bytes) (s : Scan)
    → Inside text s
    → s.i ≤ length text
    → ((get_or text s.i 0 == 59) || (s.i == length text)) ≡ true
    → Goes text s.i (semicolon text s)
unfolding semicolon
semicolon-Goes text s (inside c b l p) i h =
    if_cases_by (Goes text s.i) _ (λ z. stops (at_end c))
      (λ z.
        if_cases_by (Goes text s.i)
          (ltb 7 (s.i - s.start) && declares text (skip_until text s.i s.prevline))
          (λ d.
            goes
              (inside c (omega (arith, b)) (omega (arith, i)) (
                inr (
                  declared (skip_until text s.i s.prevline)
                    (and_right (ltb 7 (s.i - s.start)) _ d))))
              (omega arith))
          (λ d. end_statement-Goes text _ (inside c b l p) i z h))

quote-Goes :
    (text : Bytes) (s : Scan)
    → Inside text s
    → s.i < length text
    → get_or text s.i 0 ≡ 39
    → Goes text s.i (quote text s)
unfolding quote
quote-Goes text s (inside c b l p) i h =
    let by_one : (v : Bool) → Goes text s.i (again (record s { i = suc s.i; level = v })) =
      λ v. goes (inside c (omega (arith, b)) (omega (arith, i)) (inl i)) (omega arith) in
    if_cases (Goes text s.i) _
      (if_cases (Goes text s.i) _ (by_one false)
        (goes (inside c (omega (arith, b)) (omega (arith, i)) (inr (quoted s.i h))) (omega arith)))
      (by_one true)

newline-Goes :
    (text : Bytes) (s : Scan) → Inside text s → s.i < length text → Goes text s.i (newline text s)
unfolding newline
newline-Goes text s (inside c b l p) i =
    goes (inside c (omega (arith, b)) (omega (arith, i)) (inl i)) (omega arith)

read_inside : (text : Bytes) (i c : ℕ) → get_or text i 0 ≡ suc c → i < length text
read_inside [] i c h = absurd (omega (arith, h))
read_inside (x ∷ xs) zero c h = omega arith
read_inside (x ∷ xs) (suc i) c h = omega (arith, read_inside xs i c h)

at_char-Goes : (text : Bytes) (s : Scan) → Inside text s → Goes text s.i (at_char text s)
unfolding at_char
at_char-Goes text s (inside c b l p) =
    if_cases_by (Goes text s.i) (ltb (length text) s.i)
      (λ o. stops (outside (elim p [ inl i ↦ absurd (ground arith) | inr x ↦ x ])))
      (λ o.
        if_cases_by (Goes text s.i) (get_or text s.i 0 == 10)
          (λ n. newline-Goes text s (inside c b l p) (read_inside text s.i 9 (ground arith)))
          (λ n.
            if_cases_by (Goes text s.i) ((get_or text s.i 0 == 59) || (s.i == length text))
              (λ e. semicolon-Goes text s (inside c b l p) (ground arith) e)
              (λ e.
                if_cases_by (Goes text s.i) (get_or text s.i 0 == 39)
                  (λ q.
                    quote-Goes text s (inside c b l p) (read_inside text s.i 38 (ground arith))
                      (ground arith))
                  (λ q.
                    goes (inside c (omega (arith, b)) (ground arith) (inl (ground arith)))
                      (omega arith)))))

continue-Splits :
    (text : Bytes) (i : ℕ) (f : Scan → Progress) (p : Progress)
    → Goes text i p
    → ((s : Scan) → Inside text s → i < s.i → Splits text (f s))
    → Splits text (continue f p)
continue-Splits text i f p (stops (at_end c)) h = at_end c
continue-Splits text i f p (stops (outside x)) h = outside x
continue-Splits text i f p (goes {s} g lt) h = h s g lt

scan_lines-Splits :
    (fuel : ℕ) (text : Bytes) (s : Scan)
    → Inside text s
    → suc (suc (length text)) ≤ fuel + s.i
    → Splits text (scan_lines fuel text s)
unfolding scan_lines
scan_lines-Splits zero text s (inside c b l p) f = absurd (omega (arith, l, f))
scan_lines-Splits (suc fuel) text s h f =
    continue-Splits text s.i (scan_lines fuel text) (at_char text s) (at_char-Goes text s h)
      (λ s' h' lt. scan_lines-Splits fuel text s' h' (omega (arith, lt, f)))

-- With a fuel of two more than the bytes of the text, SplitSQL ends. Its lines are then: the first
-- starts behind the white space of the text, each is not empty and ends at a `;`, and the next starts
-- behind the white space after that `;`, so nothing but white space lies between them. It goes on
-- behind the end of the text only where the text has a quote or the word `declare` or `DECLARE`.
pub split_sql-Splits :
    (text : Bytes) (fuel : ℕ) → suc (suc (length text)) ≤ fuel → Splits text (split_sql fuel text)
unfolding split_sql
split_sql-Splits text fuel h =
    let le = skip_white_le text 0 (omega arith) in
    if_cases (Splits text) (has_semicolon text)
      (scan_lines-Splits fuel text
        (record {
          i = skip_white text 0;
          start = skip_white text 0;
          prevline = skip_white text 0;
          blevel = pos 0;
          level = false;
          lines = [];
        })
        (inside none_yet (omega arith) (omega (arith, le)) (inl le)) (omega (arith, h)))
      (at_end none_yet)
