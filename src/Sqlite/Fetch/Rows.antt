-- ===== src/Sqlite/Fetch/Rows.antt =====
-- exec with -usefetch, and the fetches after it.
use tcl_dbi.Base.{
  ℕ, zero, suc, ◌≤◌, ◌<◌, ◌≡◌, refl, sym, subst, ◌∙◌, ap, Bool, true, false, Option, none, some,
  List, [], ◌∷◌, ◌++◌, map, append_assoc, append-nil, map-append, length-map, arith, length,
  length-append, get_elem?, get_elem?-append, if◌then◌else◌, ltb, leb, le→ltb, le→leb, if_cases,
}
use mathlib.Core.Option
use mathlib.Core.List.{map-map}
use tcl_dbi.Base.Int.{pos}
use tcl_dbi.Memory.{Bytes}
use tcl_dbi.Memory.Yields.{then_yields, weaken, Yields, yields}
use tcl_dbi.Params.{run, sqlite_query}
use tcl_dbi.Tcl.{Tcl}
use tcl_dbi.Fetch.{decode, next_line, line_out_of_range}
use tcl_dbi.Sqlite.Session.{
  Host, Callback, Code, okay, if_autocommit, Element, default_null, value, Item, line, Session,
  History, fill_each, fill_result, clear_result, elements_of, set_fields, store_row, append_items,
  run_filling, run_text, begin_exec,
}
use tcl_dbi.Sqlite.Exec.{Answer, ok, exec, run_query, by_code, deliver}
use tcl_dbi.Sqlite.Fetch.{Fetched, error, fetch, fetch_option, fetch_line}

abbrev pub values_of : Option (List (Option Bytes)) → List (List (Option Bytes))
values_of none = []
values_of (some vs) = vs ∷ []

-- The rows that SQLite gives, in their order.
abbrev pub rows_of : List Callback → List (List (Option Bytes))
rows_of [] = []
rows_of (c ∷ cs) = values_of c.values ++ rows_of cs

-- A row as fetch shows it: an empty object, defnullvalue, for each NULL.
abbrev pub shown : {Obj : Type 0} → Option Bytes → Element Obj
shown none = default_null
shown (some v) = value v

abbrev pub line_of : {Obj : Type 0} → List (Option Bytes) → Item Obj
line_of vs = line (map shown vs)

module _ {Obj : Type 0} where
  pub elements_of-shown :
      (vs : List (Option Bytes))
      → elements_of {Obj = Obj} (some default_null) vs ≡ some (map shown vs)
  unfolding elements_of
  elements_of-shown [] = refl
  elements_of-shown (none ∷ vs) = rw (elements_of-shown vs)
  elements_of-shown (some v ∷ vs) = rw (elements_of-shown vs)

  -- A pending result with these lines, and the fields that callbacks do not change.
  pub record Holds (items : List (Item Obj)) (s t : Session Obj) : Type 0 where
    pub lines : t.result ≡ some items
    pub flat : t.resultflat ≡ false
    pub nulls : t.nullvalue ≡ some default_null
    pub calls : t.calls ≡ s.calls
    pub autocommit : t.autocommit ≡ s.autocommit

  store_row-Holds :
      (values : Option (List (Option Bytes))) (items : List (Item Obj)) (s t : Session Obj)
      → Holds items s t
      → Yields (Holds (items ++ map line_of (values_of values)) s) (store_row values t)
  unfolding store_row append_items
  store_row-Holds none items s t h = rw append-nil (yields h)
  store_row-Holds (some vs) items s t h =
      rw (h.nulls, elements_of-shown vs, h.lines, h.flat)
        (yields (record {
          lines = refl;
          flat = refl;
          nulls = refl;
          calls = h.calls;
          autocommit = h.autocommit;
        }))

  set_fields-Holds :
      (fields : Option (List Bytes)) (names : List Bytes) (items : List (Item Obj))
      (s t : Session Obj)
      → Holds items s t
      → Holds items s (set_fields fields names t)
  unfolding set_fields
  set_fields-Holds none names items s t h = record {
    lines = h.lines;
    flat = h.flat;
    nulls = h.nulls;
    calls = h.calls;
    autocommit = h.autocommit;
  }
  set_fields-Holds (some _) names items s t h = h

  fill_each-Holds :
      (cs : List Callback) (items : List (Item Obj)) (s t : Session Obj)
      → Holds items s t
      → Yields (Holds (items ++ map line_of (rows_of cs)) s) (fill_each cs t)
  unfolding fill_each fill_result
  fill_each-Holds [] items s t h = rw append-nil (yields h)
  fill_each-Holds (c ∷ cs) items s t h =
      rw (map-append, ← append_assoc)
        (then_yields
          (store_row-Holds c.values items s _ (set_fields-Holds t.resultfields c.names items s t h))
          λ u k. fill_each-Holds cs (items ++ map line_of (values_of c.values)) s u k)

module _ ⦃tcl : Tcl⦄ where
  open tcl use {Obj}

  -- `n` fetches in a row, each of the next line.
  pub fetch_each : ℕ → Session Obj → List (Fetched Obj) × Session Obj
  fetch_each zero s = ([], s)
  fetch_each (suc n) s =
      let first = fetch [] s in let rest = fetch_each n first.1 in (first.0 ∷ rest.0, rest.1)

  fetch_next :
      (items : List (Item Obj)) (item : Item Obj) (s : Session Obj)
      → s.result ≡ some items
      → get_elem? items (next_line s.tuple) ≡ some item
      → next_line s.tuple < length items
      → fetch [] s ≡ (
        Fetched.ok (some item),
        record s { ntuples = length items; tuple = some (next_line s.tuple) },
      )
  unfolding fetch decode fetch_option fetch_line
  fetch_next items item s h e l =
      let inside : ltb (length items) (next_line s.tuple) ≡ false = le→ltb _ _ (omega arith) in
      let there : leb (length items) (next_line s.tuple) ≡ false = ground arith in
      rw h (rw (inside, there, e) refl)

  -- Past the last line.
  fetch_past :
      (items : List (Item Obj)) (s : Session Obj)
      → s.result ≡ some items
      → length items ≤ next_line s.tuple
      → (fetch [] s).0 ≡ error (line_out_of_range (pos (length items)))
  unfolding fetch decode fetch_option fetch_line
  fetch_past items s h l =
      let past : leb (length items) (next_line s.tuple) ≡ true = le→leb _ _ l in
      rw h (
        if_cases
          (λ (r : Fetched Obj × Session Obj). r.0 ≡ error (line_out_of_range (pos (length items))))
          (ltb (length items) (next_line s.tuple)) refl (rw past refl))

  fetch_each-lines :
      (done rest : List (Item Obj)) (s : Session Obj)
      → s.result ≡ some (done ++ rest)
      → next_line s.tuple ≡ length done
      → ((fetch_each (length rest) s).0 ≡ map (λ item. Fetched.ok (some item)) rest)
        × ((fetch [] (fetch_each (length rest) s).1).0
            ≡ error (line_out_of_range (pos (length (done ++ rest)))))
  unfolding fetch_each
  fetch_each-lines done [] s h k =
      (refl, fetch_past (done ++ []) s h (omega (arith, k, length-append done [])))
  fetch_each-lines done (item ∷ rest) s h k =
      let next =
        fetch_next (done ++ item ∷ rest) item s h (rw k (get_elem?-append done item rest))
          (omega (arith, k, length-append done (item ∷ rest))) in
      let ih =
        fetch_each-lines (done ++ item ∷ []) rest (fetch [] s).1
          (rw next (h ∙ ap some (sym (append_assoc done (item ∷ []) rest))))
          (rw next (omega (arith, k, length-append done (item ∷ [])))) in
      (
        λ i. (next i).0 ∷ ih.0 i,
        ih.1
            ∙ ap (λ l. error (line_out_of_range (pos (length l))))
                (append_assoc done (item ∷ []) rest),
      )

-- What was run before the text of exec itself.
abbrev pub history_before : {Obj : Type 0} → Session Obj → History
history_before s = if s.autocommit then begin_exec ∷ s.calls else s.calls

module _ {Obj : Type 0} ⦃host : Host⦄ where
  run_filling-Holds :
      (sql : Bytes) (s : Session Obj)
      → Holds [] s s
      → host.code s.calls sql ≡ okay
      → Yields
          (λ r.
            (r.0 ≡ okay) × (r.1.result ≡ some (map line_of (rows_of (host.callbacks s.calls sql)))))
          (run_filling sql s)
  unfolding run_filling
  run_filling-Holds sql s holds k =
      then_yields (fill_each-Holds (host.callbacks s.calls sql) [] s s holds)
        λ t h. yields (k, h.lines)

  if_calls :
      (sql : Bytes) (b : Bool) (s : Session Obj)
      → (if b then run_text sql s else s).calls ≡ (if b then sql ∷ s.calls else s.calls)
  if_calls sql true s = refl
  if_calls sql false s = refl

module _ ⦃tcl : Tcl⦄ ⦃host : Host⦄ where
  open tcl use {Obj, string}

  -- The result is pending, and no line has been fetched.
  abbrev Pending : List (List (Option Bytes)) → Answer Obj × Session Obj → Type 0
  Pending rows r = (r.0 ≡ ok none) × (r.1.result ≡ some (map line_of rows)) × (r.1.tuple ≡ none)

  by_code-Pending :
      (rows : List (List (Option Bytes))) (code : Code) (s : Session Obj)
      → code ≡ okay
      → s.result ≡ some (map line_of rows)
      → Yields (Pending rows) (by_code true code s)
  unfolding by_code deliver
  by_code-Pending rows code s e h = rw e (
      yields (
        refl,
        if_cases (λ (u : Session Obj). u.result ≡ some (map line_of rows)) s.autocommit h h,
        refl,
      ))

  run_query-Pending :
      (nullvalue : Option Obj) (sql : Bytes) (n : ℕ) (s : Session Obj)
      → s.resultflat ≡ false
      → host.code (history_before s) sql ≡ okay
      → Yields
          (Pending (rows_of (host.callbacks (history_before s) sql)))
          (run_query true nullvalue (run sql n) s)
  unfolding run_query clear_result
  run_query-Pending nullvalue sql n s f k =
      let base = record (clear_result s) { nullvalue = some default_null; result = some [] } in
      let t = if_autocommit begin_exec base in
      let c : t.calls ≡ history_before s = if_calls begin_exec s.autocommit base in
      let holds : Holds [] t t = record {
        lines = if_cases (λ (u : Session Obj). u.result ≡ some []) s.autocommit refl refl;
        flat = if_cases (λ (u : Session Obj). u.resultflat ≡ false) s.autocommit f f;
        nulls =
            if_cases (λ (u : Session Obj). u.nullvalue ≡ some default_null) s.autocommit refl refl;
        calls = refl;
        autocommit = refl;
      } in
      subst
        (λ h.
          Yields (Pending (rows_of (host.callbacks h sql)))
            (run_query true nullvalue (run sql n) s))
        c
        (then_yields (run_filling-Holds sql t holds (subst (λ h. host.code h sql ≡ okay) (sym c) k))
          λ r q. by_code-Pending (rows_of (host.callbacks t.calls sql)) r.0 r.1 q.0 q.1)

  -- exec with -usefetch of a text that SQLite runs without an error, with one value for each of its
  -- parameters, leaves its rows for fetch: as many fetches as there are rows give the rows in their
  -- order, with an empty object for NULL, and the next fetch has the error that the line is out of
  -- range.
  pub exec-fetch_each :
      (junk : ℕ) (flat : Bool) (cmd : Obj) (nullvalue : Option Obj) (objv : List Obj) (sql : Bytes)
      (n : ℕ) (s : Session Obj)
      → sqlite_query junk (string cmd) (Option.map string nullvalue) (map string objv) ≡ run sql n
      → host.code (history_before s) sql ≡ okay
      → let rows = rows_of (host.callbacks (history_before s) sql) in
        Yields
          (λ r.
            (r.0 ≡ ok none)
            × ((fetch_each (length rows) r.1).0 ≡ map (λ vs. Fetched.ok (some (line_of vs))) rows)
            × ((fetch [] (fetch_each (length rows) r.1).1).0
                ≡ error (line_out_of_range (pos (length rows)))))
          (exec junk true true flat cmd nullvalue objv s)
  unfolding exec
  exec-fetch_each junk flat cmd nullvalue objv sql n s e k =
      let rows = rows_of (host.callbacks (history_before s) sql) in
      rw e (
        weaken (run_query-Pending nullvalue sql n (record s { resultflat = false }) refl k) λ r q.
          let all = fetch_each-lines [] (map line_of rows) r.1 q.1 (rw q.2 refl) in
          let all' = rw (length-map line_of rows) at all in
          (q.0, all'.0 ∙ map-map _ _ rows, all'.1))
