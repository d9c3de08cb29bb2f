-- ===== src/Sqlite/Object/Outcomes.antt =====
-- What get answers for a row, and what set does where there is none.
use tcl_dbi.Base.{
  ℕ, suc, ◌≡◌, refl, ap, true, false, Option, none, some, List, [], ◌∷◌, ◌==◌, map, length, arith,
  if_cases,
}
use tcl_dbi.Memory.{Bytes, NoNul, IsInt}
use tcl_dbi.Memory.Yields.{then_yields, Yields, yields}
use tcl_dbi.Sqlite3.Row.{unquoted}
use tcl_dbi.Tcl.{Tcl}
use tcl_dbi.Sqlite.Statement.{get_size}
use tcl_dbi.Sqlite.Statement.Text.{select_text}
use tcl_dbi.Sqlite.Statement.Select.{get_text}
use tcl_dbi.Sqlite.Session.{
  Host, Code, okay, default_null, value, Item, cell, Session, clear_result, set_fields, store_row,
  append_items, append_elements, fill_result, fill_each, run_filling, run_text, if_autocommit,
  end_exec,
}
use tcl_dbi.Sqlite.Exec.{Answer, ok, failed, not_found, bad_object}
use tcl_dbi.Sqlite.Fetch.Rows.{shown, elements_of-shown}
use tcl_dbi.Sqlite.Object.{
  get, arguments, split_object, named_values, count_of, got, on_okay, get_shape, get_row, hand_over,
}

-- Name and value of each column that is not NULL.
abbrev pub named : {Obj : Type 0} → List Bytes → List (Option Bytes) → List (Item Obj)
named [] vs = []
named (n ∷ ns) [] = []
named (n ∷ ns) (none ∷ vs) = named ns vs
named (n ∷ ns) (some v ∷ vs) = cell (value (unquoted n)) ∷ cell (value v) ∷ named ns vs

-- The answer by the row: an error if there is none.
abbrev pub row_answer : {Obj : Type 0} → List Bytes → Option (List (Option Bytes)) → Answer Obj
row_answer names none = failed not_found
row_answer names (some vs) = ok (some (named names vs))

abbrev pub Fits : List Bytes → Option (List (Option Bytes)) → Type 0
Fits names none = Unit {0}
Fits names (some vs) = length vs ≡ length names

module _ ⦃tcl : Tcl⦄ ⦃host : Host⦄ where
  open tcl use {Obj, string, elements}

  named_values-named :
      (ns : List Bytes) (vs : List (Option Bytes))
      → length vs ≡ length ns
      → named_values (map unquoted ns) (map cell (map shown vs)) ≡ some (named ns vs)
  unfolding named_values
  named_values-named [] vs h = refl
  named_values-named (n ∷ ns) [] h = absurd (omega arith)
  named_values-named (n ∷ ns) (none ∷ vs) h = named_values-named ns vs (omega arith)
  named_values-named (n ∷ ns) (some v ∷ vs) h = rw (named_values-named ns vs (omega arith))

  -- What the callbacks leave for get.
  record Filled (names : List Bytes) (values : Option (List (Option Bytes))) (t : Session Obj)
      : Type 0 where
    fields : t.resultfields ≡ some (map unquoted names)
    tuples : t.ntuples ≡ elim values [ none ↦ 0 | some _ ↦ 1 ]
    lines : t.result ≡ some (elim values [ none ↦ [] | some vs ↦ map cell (map shown vs) ])

  run_text-Filled :
      (names : List Bytes) (values : Option (List (Option Bytes))) (sql : Bytes) (t : Session Obj)
      → Filled names values t
      → Filled names values (run_text sql t)
  run_text-Filled names values sql t f = record {
    fields = f.fields;
    tuples = f.tuples;
    lines = f.lines;
  }

  store_one :
      (names : List Bytes) (values : Option (List (Option Bytes))) (t : Session Obj)
      → t.nullvalue ≡ some default_null
      → t.resultflat ≡ true
      → t.result ≡ some []
      → t.resultfields ≡ some (map unquoted names)
      → t.ntuples ≡ 0
      → Yields (Filled names values) (store_row values t)
  unfolding store_row append_items append_elements
  store_one names none t n b r f z = yields (record { fields = f; tuples = z; lines = r })
  store_one names (some vs) t n b r f z =
      rw (n, elements_of-shown vs, r, b)
        (yields (record { fields = f; tuples = ap suc z; lines = refl }))

  shape_one :
      (names : List Bytes) (vs : List (Option Bytes)) (fields : Option (List Bytes))
      (items : Option (List (Item Obj))) (t : Session Obj)
      → length vs ≡ length names
      → fields ≡ some (map unquoted names)
      → items ≡ some (map cell (map shown vs))
      → get_shape 0 fields items t ≡ some (ok (some (named names vs)), clear_result t)
  unfolding get_shape hand_over clear_result
  shape_one names vs fields items t h e f =
      rw (e, f)
        (ap
          (λ (m : Option (List (Item Obj))). elim m as (λ _. Option (Answer Obj × Session Obj)) [
            | none ↦ none
            | some r ↦ some (ok (some r), clear_result t)
          ])
          (named_values-named names vs h))

  got_one :
      (names : List Bytes) (values : Option (List (Option Bytes))) (t : Session Obj)
      → Fits names values
      → Filled names values t
      → got [] t ≡ some (row_answer names values, clear_result t)
  unfolding got count_of clear_result
  got_one names none t h f = let z : (t.ntuples == 0) ≡ true = ground (arith, f.tuples) in rw z refl
  got_one names (some vs) t h f =
      let z : (t.ntuples == 0) ≡ false = ground (arith, f.tuples) in
      rw z (shape_one names vs t.resultfields t.result t h f.fields f.lines)

  split_object-eq :
      (object t id : Obj)
      → elements object ≡ some (t ∷ id ∷ [])
      → split_object object ≡ (bad_object, some (t, id))
  unfolding split_object
  split_object-eq object t id e = rw (split_object, e) refl

  -- The select, on a fresh flat result.
  select_one :
      (names : List Bytes) (values : Option (List (Option Bytes))) (sql : Bytes) (s : Session Obj)
      → s.resultfields ≡ none
      → s.nullvalue ≡ some default_null
      → s.resultflat ≡ true
      → s.result ≡ some []
      → host.callbacks s.calls sql ≡ record { names = names; values = values } ∷ []
      → host.code s.calls sql ≡ okay
      → Yields (λ r. (r.0 ≡ okay) × Filled names values r.1) (run_filling sql s)
  unfolding run_filling fill_each fill_result set_fields
  select_one names values sql s f n b l c k =
      let s' = record s {
        resultfields = some (map unquoted names);
        nfields = length names;
        ntuples = 0;
      } in
      rw (run_filling, c, f)
        (then_yields (then_yields (store_one names values s' n b l refl refl) λ u g. yields g)
          λ t g. yields (k, run_text-Filled names values sql t g))

  on_okay-got :
      (names : List Bytes) (values : Option (List (Option Bytes))) (code : Code) (t : Session Obj)
      → Fits names values
      → code ≡ okay
      → Filled names values t
      → Yields
          (λ r. (r.0 ≡ row_answer names values) × (r.1.result ≡ none) × (r.1.resultfields ≡ none))
          (on_okay (got []) code t)
  unfolding clear_result
  on_okay-got names values code t h e f =
      rw
        (
          e,
          got_one names values (if_autocommit end_exec t) h (
              if_cases (Filled names values) t.autocommit
                (run_text-Filled names values end_exec t f) f),
        )
        (yields (refl, refl, refl))

  -- get of a whole object, outside a pending result and with the empty object for NULL, where the
  -- size of the buffer is in the range of the int in which it is summed: where SQLite runs the
  -- select without an error and gives its columns, with a row or without one, the answer is the
  -- name and the value of each column that is not NULL, or the error that the object is not found,
  -- and nothing is left pending.
  pub get-row_answer :
      (junk : ℕ) (object t id : Obj) (names : List Bytes) (values : Option (List (Option Bytes)))
      (s : Session Obj)
      → elements object ≡ some (t ∷ id ∷ [])
      → NoNul (string t)
      → NoNul (string id)
      → IsInt (get_size (string t) (string id) [])
      → s.resultfields ≡ none
      → s.nullvalue ≡ some default_null
      → host.callbacks s.calls (select_text (string t) (string id) [])
        ≡ record { names = names; values = values } ∷ []
      → host.code s.calls (select_text (string t) (string id) []) ≡ okay
      → Fits names values
      → Yields
          (λ r. (r.0 ≡ row_answer names values) × (r.1.result ≡ none) × (r.1.resultfields ≡ none))
          (get junk object [] s)
  unfolding get arguments get_row
  get-row_answer junk object t id names values s e nt ni int f n c k h =
      rw
        (
          split_object-eq object t id e,
          get_row,
          get_text junk (string t) (string id) nt ni [] refl int,
        )
        (then_yields (select_one names values _ _ f n refl refl c k)
          λ r q. on_okay-got names values r.0 r.1 h q.0 q.1)
