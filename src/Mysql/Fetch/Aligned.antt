-- ===== src/Mysql/Fetch/Aligned.antt =====
-- The current row of a fetch of mysql/generic/mysql.c, and the place of the library in the result.
use tcl_dbi.Base.{
  ℕ, zero, suc, ◌≡◌, refl, sym, ap, ◌∙◌, Bool, Option, none, some, List, ◌==◌, if◌then◌else◌,
  length, get_elem?, leb, if_cases, Bool-cases, inl, inr, ==_iff, subst,
}
use tcl_dbi.Memory.{Bytes}
use tcl_dbi.Base.Int.{pos}
use tcl_dbi.Tcl.{Tcl}
use tcl_dbi.Fetch.{
  Request, Decoded, wrong, request, decode, sub_cmds, next_line, target_of, at_least, no_result,
  line_out_of_range, field_out_of_range,
}
use tcl_dbi.Mysql.Fetch.{
  Row, Result, Session, Fetched, seek_to, sought, move_to, deliver, fetch_line, fetch_option,
  fetch_decoded, fetch, null_of,
}

abbrev pub RowAt : Result → Option Row → Option ℕ → Type 0
RowAt r row none = Unit {0}
RowAt r row (some t) = row ≡ get_elem? r.rows t

-- The current row is that of the position, and the library stands behind it.
pub record InStep (r : Result) (s : Session) : Type 0 where
  pub held : s.result ≡ some r
  pub behind : s.place ≡ next_line s.tuple
  pub current : RowAt r s.row s.tuple

-- In step, at this line.
record Moved (r : Result) (n : ℕ) (s : Session) : Type 0 where
  in_step : InStep r s
  there : s.row ≡ get_elem? r.rows n

module _ (r : Result) (n : ℕ) where
  sought-Moved : (s : Session) → s.result ≡ some r → Moved r n (sought r n s)
  sought-Moved s h = record {
    in_step = record { held = h; behind = refl; current = refl };
    there = refl;
  }

  seek_to-Moved :
      (t : Option ℕ) (s : Session)
      → s.tuple ≡ t
      → RowAt r s.row t
      → InStep r s
      → Moved r n (seek_to r n t s)
  unfolding seek_to
  seek_to-Moved none s e c h = sought-Moved s h.held
  seek_to-Moved (some t) s e c h = elim (Bool-cases (n == t)) [
    | inl same ↦
        rw same
          (record { in_step = h; there = c ∙ ap (get_elem? r.rows) (sym ((==_iff n t).0 same)) })
    | inr other ↦ rw other (sought-Moved s h.held)
  ]

  move_to-Moved : (s : Session) → InStep r s → Moved r n (move_to r n s)
  unfolding move_to
  move_to-Moved s h = elim (Bool-cases (n == next_line s.tuple)) [
    | inl next ↦
        let at : s.place ≡ n = h.behind ∙ sym ((==_iff n (next_line s.tuple)).0 next) in
        rw next (record {
          in_step = record {
            held = h.held;
            behind = ap suc at;
            current = ap (get_elem? r.rows) at;
          };
          there = ap (get_elem? r.rows) at;
        })
    | inr other ↦ rw other (seek_to-Moved s.tuple s refl h.current h)
  ]

module _ ⦃tcl : Tcl⦄ (reads : Bytes → Bool) (r : Result) where
  open tcl use {Obj}

  fetch_line-InStep :
      (q : Request Obj) (s : Session) → InStep r s → InStep r (fetch_line reads q r s).1
  unfolding fetch_line
  fetch_line-InStep q s h =
      let there = (move_to-Moved r (target_of s.tuple q.ituple) s h).in_step in
      if_cases (λ (u : Fetched Obj × Session). InStep r u.1)
        (leb (length r.rows) (target_of s.tuple q.ituple)) h
        (if_cases (λ (u : Fetched Obj × Session). InStep r u.1)
          (at_least q.ifield (length r.fields)) there there)

  fetch_option-InStep :
      (w : ℕ) (q : Request Obj) (s : Session) → InStep r s → InStep r (fetch_option reads w q r s).1
  unfolding fetch_option
  fetch_option-InStep zero q s h = fetch_line-InStep q s h
  fetch_option-InStep (suc zero) q s h = h
  fetch_option-InStep (suc (suc zero)) q s h = h
  fetch_option-InStep (suc (suc (suc zero))) q s h = h
  fetch_option-InStep (suc (suc (suc (suc n)))) q s h = fetch_line-InStep q s h

  fetch_decoded-InStep :
      (d : Decoded Obj) (s : Session) → InStep r s → InStep r (fetch_decoded reads d r s).1
  unfolding fetch_decoded
  fetch_decoded-InStep (wrong e) s h = h
  fetch_decoded-InStep (request q) s h = fetch_option-InStep q.option q s h

  fetch-decoded :
      (objv : List Obj) (s : Session)
      → s.result ≡ some r
      → fetch reads objv s ≡ fetch_decoded reads (decode sub_cmds s.tuple objv) r s
  unfolding fetch
  fetch-decoded objv s h =
      ap
        (λ m. elim m as (λ _. Fetched Obj × Session) [
          | none ↦ (Fetched.error no_result, s)
          | some r ↦ fetch_decoded reads (decode sub_cmds s.tuple objv) r s
        ])
        h

  -- What a fetch of a line answers, by the rows of the result alone.
  abbrev pub row_answer : Request Obj → ℕ → Fetched Obj
  row_answer q n =
      if leb (length r.rows) n
      then Fetched.error (line_out_of_range (pos (length r.rows)))
      else if at_least q.ifield (length r.fields)
      then Fetched.error (field_out_of_range q.ifield)
      else deliver reads q.option q.ifield (null_of reads q.null_value) r (get_elem? r.rows n)

  fetch_line-row_answer :
      (q : Request Obj) (s : Session)
      → InStep r s
      → (fetch_line reads q r s).0 ≡ row_answer q (target_of s.tuple q.ituple)
  unfolding fetch_line
  fetch_line-row_answer q s h =
      elim (Bool-cases (leb (length r.rows) (target_of s.tuple q.ituple))) [
        | inl out ↦ rw out refl
        | inr line ↦ elim (Bool-cases (at_least q.ifield (length r.fields))) [
          | inl out ↦ rw (line, out) refl
          | inr field ↦
              rw (line, field)
                (ap (deliver reads q.option q.ifield (null_of reads q.null_value) r)
                  (move_to-Moved r (target_of s.tuple q.ituple) s h).there)
        ]
      ]

  -- If the current row is that of the position and the library stands behind it, then so it is after
  -- any fetch, also after one that ends with an error. And a fetch of a line, be it the next one, the
  -- current one or another, answers from the row of that line, or with the error that the line or
  -- the field is out of range.
  pub fetch-InStep :
      (objv : List Obj) (q : Request Obj) (s : Session)
      → InStep r s
      → InStep r (fetch reads objv s).1
        × ((fetch_line reads q r s).0 ≡ row_answer q (target_of s.tuple q.ituple))
  fetch-InStep objv q s h = (
    subst (InStep r) (sym (ap (λ (u : Fetched Obj × Session). u.1) (fetch-decoded objv s h.held)))
        (fetch_decoded-InStep (decode sub_cmds s.tuple objv) s h),
    fetch_line-row_answer q s h,
  )
