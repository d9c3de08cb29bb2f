-- ===== src/Postgresql/Fetch/Lines.antt =====
-- The lines of a result of postgresql/generic/postgresql.c: one after the other by fetch, or at once
-- by exec.
use tcl_dbi.Base.{
  ℕ, zero, suc, ◌≤◌, ◌<◌, ◌≡◌, refl, sym, ap, ◌∙◌, Bool, true, false, Option, none, some, List, [],
  ◌∷◌, ◌++◌, map, length, get_elem?, get_elem?-append, length-append, append_assoc, arith, leb,
  le→leb,
}
use mathlib.Core.Option
use tcl_dbi.Base.Int.{pos, negsuc}
use tcl_dbi.Memory.{Bytes}
use tcl_dbi.Memory.Yields.{Yields, yields}
use tcl_dbi.Params.{run, postgresql_query}
use tcl_dbi.Tcl.{Tcl}
use tcl_dbi.Fetch.{decode, no_result, next_line, line_out_of_range}
use tcl_dbi.Postgresql.Session.{
  Host, Result, Table, Session, Element, default_null, Item, line, ran, tuples, get_line, to_result,
}
use tcl_dbi.Postgresql.Exec.{exec, run_query, by_reply, keep, lines, done, Answer}
use tcl_dbi.Postgresql.Fetch.{
  Fetched, error, fault, fetch, fetch_decoded, fetch_option, fetch_line, on_row, data_result,
}

module _ ⦃tcl : Tcl⦄ ⦃host : Host⦄ where
  open tcl use {Obj, string}

  -- The lines of the rows, one by one.
  record Split (ts : List ℕ) (vs : List (Option Bytes)) (rows : List (List (Option Bytes)))
      (items : List (Item Obj)) : Type 0 where
    es : List (Element Obj)
    rest : List (Item Obj)
    first : get_line default_null ts vs ≡ some es
    others : to_result false default_null ts rows ≡ some rest
    whole : items ≡ line es ∷ rest

  split_line :
      (ts : List ℕ) (vs : List (Option Bytes)) (rows : List (List (Option Bytes)))
      (items : List (Item Obj)) (m : Option (List (Element Obj))) (n : Option (List (Item Obj)))
      → get_line default_null ts vs ≡ m
      → to_result false default_null ts rows ≡ n
      → elim m as (λ _. Option (List (Item Obj))) [
        | none ↦ none
        | some es ↦ Option.map (λ l. line es ∷ l) n
      ]
        ≡ some items
      → Split ts vs rows items
  split_line ts vs rows items none n a b e = absurd (cc)
  split_line ts vs rows items (some es) none a b e = absurd (cc)
  split_line ts vs rows items (some es) (some l) a b e = record {
    es = es;
    rest = l;
    first = a;
    others = b;
    whole = cc;
  }

  to_result-Split :
      (ts : List ℕ) (vs : List (Option Bytes)) (rows : List (List (Option Bytes)))
      (items : List (Item Obj))
      → to_result false default_null ts (vs ∷ rows) ≡ some items
      → Split ts vs rows items
  unfolding to_result
  to_result-Split ts vs rows items e = split_line ts vs rows items _ _ refl refl e

  -- `n` fetches in a row, each of the next line.
  pub fetch_each : ℕ → Session → List (Fetched Obj) × Session
  fetch_each zero s = ([], s)
  fetch_each (suc n) s =
      let first = fetch [] s in let rest = fetch_each n first.1 in (first.0 ∷ rest.0, rest.1)

  whole_row :
      (t : Table) (vs : List (Option Bytes)) (es : List (Element Obj))
      → get_line default_null t.types vs ≡ some es
      → on_row
          (record { option = 0; null_value = none; ituple = none; ifield = negsuc 0 })
          t
          (some vs)
        ≡ Fetched.ok (some (line es))
  unfolding on_row data_result
  whole_row t vs es g =
      ap
        (λ m. elim m as (λ _. Fetched Obj) [ none ↦ fault | some es ↦ Fetched.ok (some (line es)) ])
        g

  pending_fetch :
      (r : Result) (s : Session)
      → s.res ≡ some r
      → fetch [] s
        ≡ fetch_line
            (record { option = 0; null_value = none; ituple = none; ifield = negsuc 0 })
            r.table
            s
  unfolding fetch decode fetch_decoded fetch_option
  pending_fetch r s h =
      ap
        (λ m. elim m as (λ _. Fetched Obj × Session) [
          | none ↦ (error no_result, s)
          | some r ↦
              fetch_line
                (record { option = 0; null_value = none; ituple = none; ifield = negsuc 0 }) r.table
                s
        ])
        h

  fetch_next :
      (r : Result) (vs : List (Option Bytes)) (es : List (Element Obj)) (s : Session)
      → s.res ≡ some r
      → get_elem? r.table.rows (next_line s.respos) ≡ some vs
      → next_line s.respos < length r.table.rows
      → get_line default_null r.table.types vs ≡ some es
      → fetch [] s ≡ (Fetched.ok (some (line es)), record s { respos = some (next_line s.respos) })
  unfolding fetch_line
  fetch_next r vs es s h e l g =
      let there : leb (length r.table.rows) (next_line s.respos) ≡ false = ground arith in
      pending_fetch r s h
      ∙ (rw (there, e)
          (ap (λ (f : Fetched Obj). (f, record s { respos = some (next_line s.respos) }))
            (whole_row r.table vs es g)))

  fetch_past :
      (r : Result) (s : Session)
      → s.res ≡ some r
      → length r.table.rows ≤ next_line s.respos
      → (fetch [] s).0 ≡ error (line_out_of_range (pos (length r.table.rows)))
  unfolding fetch_line
  fetch_past r s h l =
      let past : leb (length r.table.rows) (next_line s.respos) ≡ true = le→leb _ _ l in
      ap (λ (u : Fetched Obj × Session). u.0) (pending_fetch r s h) ∙ (rw past refl)

  fetch_each-lines :
      (r : Result) (gone rows : List (List (Option Bytes))) (items : List (Item Obj)) (s : Session)
      → s.res ≡ some r
      → r.table.rows ≡ gone ++ rows
      → next_line s.respos ≡ length gone
      → to_result false default_null r.table.types rows ≡ some items
      → ((fetch_each (length rows) s).0 ≡ map (λ item. Fetched.ok (some item)) items)
        × ((fetch [] (fetch_each (length rows) s).1).0
            ≡ error (line_out_of_range (pos (length r.table.rows))))
  unfolding fetch_each to_result
  fetch_each-lines r gone [] items s h e k q =
      let empty : items ≡ [] = cc in
      (
        ap (map (λ item. Fetched.ok (some item))) (sym empty),
        fetch_past r s h (omega (arith, k, ap length e, length-append gone [])),
      )
  fetch_each-lines r gone (vs ∷ rows) items s h e k q =
      let p = to_result-Split r.table.types vs rows items q in
      let next =
        fetch_next r vs p.es s h (rw (k, e) (get_elem?-append gone vs rows))
          (omega (arith, k, ap length e, length-append gone (vs ∷ rows))) p.first in
      let ih =
        fetch_each-lines r (gone ++ vs ∷ []) rows p.rest (fetch [] s).1 (rw next h)
          (e ∙ sym (append_assoc gone (vs ∷ []) rows))
          (rw next (omega (arith, k, length-append gone (vs ∷ [])))) p.others in
      ((λ i. (next i).0 ∷ ih.0 i) ∙ ap (map (λ item. Fetched.ok (some item))) (sym p.whole), ih.1)

  whole_answer :
      (t : Table) (items : List (Item Obj)) (n : ℕ) (s : Session)
      → to_result false default_null t.types t.rows ≡ some items
      → by_reply false false none (tuples t) n s
        ≡ some (lines items, keep false (record { number = n; table = t }) s)
  unfolding by_reply
  whole_answer t items n s g =
      ap
        (λ m. elim m as (λ _. Option (Answer Obj × Session)) [
          | none ↦ none
          | some l ↦ some (lines l, keep false (record { number = n; table = t }) s)
        ])
        g

  keep-res : (r : Result) (s : Session) → (keep true r s).res ≡ some r
  unfolding keep
  keep-res r s = refl

  keep-respos : (r : Result) (s : Session) → next_line (keep true r s).respos ≡ 0
  unfolding keep
  keep-respos r s = refl

  -- For a text that the server answers with a table whose values can be read: exec gives the lines of
  -- the table as its result, and exec with -usefetch, and then a fetch for each row, gives the same
  -- lines in the same order, whatever was pending before; one more fetch has the error that the line
  -- is out of range.
  pub exec-fetch_lines :
      (junk : ℕ) (flat : Bool) (cmd : Obj) (objv : List Obj) (sql : Bytes) (n : ℕ) (t : Table)
      (items : List (Item Obj)) (s : Session)
      → postgresql_query junk (string cmd) none (map string objv) ≡ run sql n
      → host.reply s.calls sql ≡ tuples t
      → to_result false default_null t.types t.rows ≡ some items
      → Yields (λ r. r.0 ≡ lines items) (exec junk true false false cmd none objv s)
        × Yields
            (λ r.
              (r.0 ≡ done)
              × ((fetch_each (length t.rows) r.1).0 ≡ map (λ item. Fetched.ok (some item)) items)
              × ((fetch [] (fetch_each (length t.rows) r.1).1).0
                  ≡ error (line_out_of_range (pos (length t.rows)))))
            (exec junk true true flat cmd none objv s)
  unfolding exec run_query by_reply keep
  exec-fetch_lines junk flat cmd objv sql n t items s q e g =
      let r : Result = record { number = length s.calls; table = t } in
      let kept : Session = keep true r (record s { calls = ran sql ∷ s.calls }) in
      let asked = record s { calls = ran sql ∷ s.calls } in
      let all =
        fetch_each-lines r [] t.rows items kept (keep-res r asked) refl (keep-respos r asked) g in
      (
        rw (q, e, whole_answer t items (length s.calls) _ g) (yields refl),
        rw (q, e) (yields (refl, all.0, all.1)),
      )
