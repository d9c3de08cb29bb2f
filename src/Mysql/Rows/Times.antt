-- ===== src/Mysql/Rows/Times.antt =====
-- Timestamps of mysql/generic/mysql.c in their buffer of 24 bytes, and flat results.
use tcl_dbi.Base.{
  ℕ, ◌+◌, ◌≤◌, ◌≡◌, refl, sym, ap, ◌∙◌, Bool, true, false, Option, none, some, List, [], ◌∷◌, ◌++◌,
  ◌==◌, ◌||◌, if◌then◌else◌, length, drop, length-append, length-take, append-nil, append_assoc,
  arith,
}
use mathlib.Core.Option
use tcl_dbi.Memory.{Bytes, codes}
use tcl_dbi.Memory.Yields.{Yields, yields}
use tcl_dbi.Mysql.Rows.{
  timestamp_text, part, date, clock, seconds, FieldType, Element, get_one, to_result,
  to_result_flat, flat_rows, flat_row, fetch_row,
}

abbrev pub concat : {A : Type 0} → List (List A) → List A
concat [] = []
concat (xs ∷ xss) = xs ++ concat xss

module _ {Obj : Type 0} (reads : Bytes → Bool) (nv : Element Obj) where
  flat_step :
      (m : Option (Element Obj)) (n : Option (List (Element Obj)))
      (f : Element Obj → Option (List (Element Obj))) (done : List (Element Obj))
      → ((e : Element Obj) → f e ≡ Option.map (λ es. (done ++ e ∷ []) ++ es) n)
      → elim m as (λ _. Option (List (Element Obj))) [ none ↦ none | some e ↦ f e ]
        ≡ Option.map
            (λ es. done ++ es)
            (elim m as (λ _. Option (List (Element Obj))) [
              | none ↦ none
              | some e ↦ Option.map (λ es. e ∷ es) n
            ])
  flat_step none n f done h = refl
  flat_step (some e) none f done h = h e
  flat_step (some e) (some es) f done h = h e ∙ ap some (append_assoc done (e ∷ []) es)

  flat_row-fetch_row :
      (ts : List FieldType) (vs : List (Option Bytes)) (done : List (Element Obj))
      → flat_row reads nv ts vs done ≡ Option.map (λ es. done ++ es) (fetch_row reads nv ts vs)
  unfolding flat_row fetch_row
  flat_row-fetch_row [] vs done = ap some (sym (append-nil done))
  flat_row-fetch_row (t ∷ ts) [] done = refl
  flat_row-fetch_row (t ∷ ts) (v ∷ vs) done =
      flat_step (get_one reads nv t v) (fetch_row reads nv ts vs) _ done
        λ e. flat_row-fetch_row ts vs (done ++ e ∷ [])

  flat_lines :
      (m : Option (List (Element Obj))) (n : Option (List (List (Element Obj))))
      (f : List (Element Obj) → Option (List (Element Obj))) (done : List (Element Obj))
      → ((es : List (Element Obj)) → f es ≡ Option.map (λ ls. es ++ concat ls) n)
      → elim (Option.map (λ es. done ++ es) m) as (λ _. Option (List (Element Obj))) [
        | none ↦ none
        | some more ↦ f more
      ]
        ≡ Option.map
            (λ ls. done ++ concat ls)
            (elim m as (λ _. Option (List (List (Element Obj)))) [
              | none ↦ none
              | some es ↦ Option.map (λ ls. es ∷ ls) n
            ])
  flat_lines none n f done h = refl
  flat_lines (some es) none f done h = h (done ++ es)
  flat_lines (some es) (some ls) f done h =
      h (done ++ es) ∙ ap some (append_assoc done es (concat ls))

  flat_rows-to_result :
      (ts : List FieldType) (rows : List (List (Option Bytes))) (done : List (Element Obj))
      → flat_rows reads nv ts rows done
        ≡ Option.map (λ ls. done ++ concat ls) (to_result reads nv ts rows)
  unfolding flat_rows to_result
  flat_rows-to_result ts [] done = ap some (sym (append-nil done))
  flat_rows-to_result ts (vs ∷ rows) done =
      ap
        (λ m. elim m as (λ _. Option (List (Element Obj))) [
          | none ↦ none
          | some more ↦ flat_rows reads nv ts rows more
        ])
        (flat_row-fetch_row ts vs done)
      ∙ flat_lines (fetch_row reads nv ts vs) (to_result reads nv ts rows) _ done
          (λ es. flat_rows-to_result ts rows es)

  -- A flat result is the lines of the result one after the other: the two loops read the same values
  -- in the same order, and fail on the same values.
  pub to_result_flat-concat :
      (ts : List FieldType) (rows : List (List (Option Bytes)))
      → to_result_flat reads nv ts rows ≡ Option.map concat (to_result reads nv ts rows)
  unfolding to_result_flat
  to_result_flat-concat ts rows = flat_rows-to_result ts rows []

part-length : (i n : ℕ) (s : Bytes) → length (part i n s) ≤ n
part-length i n s = omega (arith, length-take n (drop i s))

date-length : (y : ℕ) (s : Bytes) → length (date y s) ≤ y + 6
date-length y s = omega (
  arith,
  length-append (part 0 y s) (codes "-" ++ (part y 2 s ++ (codes "-" ++ part (y + 2) 2 s))),
  length-append (part y 2 s) (codes "-" ++ part (y + 2) 2 s),
  part-length 0 y s,
  part-length y 2 s,
  part-length (y + 2) 2 s,
)

clock-length : (i : ℕ) (s : Bytes) → length (clock i s) ≤ 6
clock-length i s = omega (
  arith,
  length-append (part i 2 s) (codes ":" ++ part (i + 2) 2 s),
  part-length i 2 s,
  part-length (i + 2) 2 s,
)

seconds-length : (i : ℕ) (s : Bytes) → length (seconds i s) ≤ 7
seconds-length i s = omega (arith, length-append (part i 2 s) (codes ".000"), part-length i 2 s)

with_seconds :
    (y i j : ℕ) (s : Bytes) → y ≤ 4 → length (date y s ++ (clock i s ++ seconds j s)) + 1 ≤ 24
with_seconds y i j s h = omega (
  arith,
  length-append (date y s) (clock i s ++ seconds j s),
  length-append (clock i s) (seconds j s),
  date-length y s,
  clock-length i s,
  seconds-length j s,
)

-- The lengths of a timestamp that have a text.
abbrev pub formatted : ℕ → Bool
formatted n =
    (n == 2) || ((n == 4) || ((n == 8) || ((n == 10) || ((n == 12) || ((n == 14) || (n == 19))))))

choose :
    {P : Bytes → Type 0} (b : Bool) {m n : Option Bytes}
    → (b ≡ true → Yields P m)
    → (b ≡ false → Yields P n)
    → Yields P (if b then m else n)
choose true h k = h refl
choose false h k = k refl

-- A timestamp of 2, 4, 8, 10, 12, 14 or 19 bytes has a text, and with its NUL the text fits in the
-- buffer of 24 bytes.
pub timestamp_text-fits :
    (s : Bytes) → formatted (length s) ≡ true → Yields (λ t. length t + 1 ≤ 24) (timestamp_text s)
unfolding timestamp_text
timestamp_text-fits s h =
    choose (length s == 2) (λ e. yields (omega (arith, part-length 0 2 s)))
      λ a.
        choose (length s == 4)
          (λ e. yields (
            omega (
              arith,
              length-append (part 0 2 s) (codes "-" ++ part 2 2 s),
              part-length 0 2 s,
              part-length 2 2 s,
            )))
          λ b.
            choose (length s == 8) (λ e. yields (omega (arith, date-length 4 s)))
              λ c.
                choose (length s == 10)
                  (λ e. yields (
                    omega (
                      arith,
                      length-append (date 2 s) (clock 6 s),
                      date-length 2 s,
                      clock-length 6 s,
                    )))
                  λ d.
                    choose (length s == 12) (λ e. yields (with_seconds 2 6 10 s (omega arith)))
                      λ f.
                        choose (length s == 14) (λ e. yields (with_seconds 4 8 12 s (omega arith)))
                          λ g.
                            choose (length s == 19)
                              (λ e. yields (ground (arith, length-append s (codes ".000"))))
                              λ k. absurd (ground arith)
