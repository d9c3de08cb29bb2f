-- ===== src/Sqlite/Exec/Bracket.antt =====
-- What exec of sqlite/generic/sqlite.c runs, on every branch: the text within its own transaction.
use tcl_dbi.Base.{
  ℕ, ◌≡◌, refl, sym, ap, ◌∙◌, subst, Bool, true, false, Option, none, some, List, [], ◌∷◌, map,
  if◌then◌else◌, if_cases,
}
use mathlib.Core.Option
use tcl_dbi.Memory.{Bytes}
use tcl_dbi.Memory.Yields.{then_yields, weaken, Yields, yields}
use tcl_dbi.Params.{run, sqlite_query}
use tcl_dbi.Tcl.{Tcl}
use tcl_dbi.Sqlite.Session.{
  Host, Callback, Code, okay, constraint, other, Element, Item, Session, History, fill_each,
  fill_result, clear_result, elements_of, set_fields, store_row, append_items, append_elements,
  run_filling, run_text, if_autocommit, begin_exec, end_exec, rollback_exec,
}
use tcl_dbi.Sqlite.Exec.{
  Answer, ok, failed, violation, database_error, exec, run_query, by_code, deliver, null_element,
  flat_flag,
}

-- There is a result to append to and a null value, and these do not change.
record Filling {Obj : Type 0} (h : History) (auto : Bool) (t : Session Obj) : Type 0 where
  pub items : List (Item Obj)
  pub filled : t.result ≡ some items
  pub null : Element Obj
  pub null_value : t.nullvalue ≡ some null
  pub calls : t.calls ≡ h
  pub autocommit : t.autocommit ≡ auto

module _ {Obj : Type 0} where
  -- With a null value every row has its elements.
  elements_of-Yields :
      (e : Element Obj) (vs : List (Option Bytes))
      → Yields (λ _. Unit {0}) (elements_of (some e) vs)
  unfolding elements_of
  elements_of-Yields e [] = yields tt
  elements_of-Yields e (none ∷ vs) = then_yields (elements_of-Yields e vs) λ es _. yields tt
  elements_of-Yields e (some v ∷ vs) = then_yields (elements_of-Yields e vs) λ es _. yields tt

  module _ (h : History) (auto : Bool) where
    set_fields-Filling :
        (fields : Option (List Bytes)) (names : List Bytes) (t : Session Obj)
        → Filling h auto t
        → Filling h auto (set_fields fields names t)
    unfolding set_fields
    set_fields-Filling none names t f = record {
      items = f.items;
      filled = f.filled;
      null = f.null;
      null_value = f.null_value;
      calls = f.calls;
      autocommit = f.autocommit;
    }
    set_fields-Filling (some _) names t f = f

    append_elements-Filling :
        (es : Option (List (Element Obj))) (t : Session Obj)
        → Yields (λ _. Unit {0}) es
        → Filling h auto t
        → Yields (Filling h auto) (append_elements es t)
    unfolding append_elements append_items
    append_elements-Filling (some es) t y f = rw f.filled (
        yields (record {
          items = _;
          filled = refl;
          null = f.null;
          null_value = f.null_value;
          calls = f.calls;
          autocommit = f.autocommit;
        }))
    append_elements-Filling none t y f = elim y [ ]

    store_row-Filling :
        (values : Option (List (Option Bytes))) (t : Session Obj)
        → Filling h auto t
        → Yields (Filling h auto) (store_row values t)
    unfolding store_row
    store_row-Filling none t f = yields f
    store_row-Filling (some vs) t f =
        append_elements-Filling (elements_of t.nullvalue vs) t
          (subst (λ nv. Yields (λ _. Unit {0}) (elements_of nv vs)) (sym f.null_value)
            (elements_of-Yields f.null vs))
          f

    fill_each-Filling :
        (cs : List Callback) (t : Session Obj)
        → Filling h auto t
        → Yields (Filling h auto) (fill_each cs t)
    unfolding fill_each fill_result
    fill_each-Filling [] t f = yields f
    fill_each-Filling (c ∷ cs) t f =
        then_yields (store_row-Filling c.values _ (set_fields-Filling t.resultfields c.names t f))
          λ u g. fill_each-Filling cs u g

-- The texts of one exec, newest first: its own, within a transaction where autocommit is on.
abbrev pub closing : Code → Bytes
closing okay = end_exec
closing constraint = rollback_exec
closing (other n) = rollback_exec

abbrev pub bracketed : Bool → Code → Bytes → History → History
bracketed auto code sql h = if auto then closing code ∷ sql ∷ begin_exec ∷ h else sql ∷ h

abbrev pub began : Bool → History → History
began auto h = if auto then begin_exec ∷ h else h

-- An error leaves no result, neither for the script nor for fetch.
abbrev pub Reported : {Obj : Type 0} → Code → Answer Obj × Session Obj → Type 0
Reported okay r = Unit {0}
Reported constraint r = (r.0 ≡ failed violation) × (r.1.result ≡ none) × (r.1.resultfields ≡ none)
Reported (other n) r =
    (r.0 ≡ failed database_error) × (r.1.result ≡ none) × (r.1.resultfields ≡ none)

module _ {Obj : Type 0} where
  closed :
      (auto : Bool) (code : Code) (sql : Bytes) (h : History) (t : Session Obj)
      → t.autocommit ≡ auto
      → t.calls ≡ sql ∷ began auto h
      → (if_autocommit (closing code) t).calls ≡ bracketed auto code sql h
  closed true code sql h t a c = rw (a, c) refl
  closed false code sql h t a c = rw (a, c) refl

  began-calls :
      (b : Bool) (s : Session Obj)
      → (if b then run_text begin_exec s else s).calls ≡ began b s.calls
  began-calls true s = refl
  began-calls false s = refl

module _ ⦃tcl : Tcl⦄ ⦃host : Host⦄ where
  open tcl use {Obj, string}

  deliver-calls :
      (usefetch : Bool) (t : Session Obj) → Yields (λ r. r.1.calls ≡ t.calls) (deliver usefetch t)
  unfolding deliver clear_result
  deliver-calls true t = yields refl
  deliver-calls false t =
      elim t.result
        as (λ o.
          Yields (λ (r : Answer Obj × Session Obj). r.1.calls ≡ t.calls)
            (elim o [
              | none ↦ some (ok none, t)
              | some items ↦ some (ok (some items), clear_result t)
            ])) [ none ↦ yields refl | some items ↦ yields refl ]

  by_code-bracketed :
      (usefetch auto : Bool) (code : Code) (sql : Bytes) (h : History) (t : Session Obj)
      → t.autocommit ≡ auto
      → t.calls ≡ sql ∷ began auto h
      → Yields
          (λ r. (r.1.calls ≡ bracketed auto code sql h) × Reported code r)
          (by_code usefetch code t)
  unfolding by_code clear_result
  by_code-bracketed usefetch auto okay sql h t a c =
      weaken (deliver-calls usefetch (if_autocommit end_exec t))
        λ r e. (e ∙ closed auto okay sql h t a c, tt)
  by_code-bracketed usefetch auto constraint sql h t a c =
      yields (closed auto constraint sql h t a c, (refl, refl, refl))
  by_code-bracketed usefetch auto (other n) sql h t a c =
      yields (closed auto (other n) sql h t a c, (refl, refl, refl))

  run_filling-calls :
      (sql : Bytes) (auto : Bool) (t : Session Obj)
      → Filling t.calls auto t
      → Yields
          (λ r.
            (r.0 ≡ host.code t.calls sql) × (r.1.calls ≡ sql ∷ t.calls) × (r.1.autocommit ≡ auto))
          (run_filling sql t)
  unfolding run_filling
  run_filling-calls sql auto t f =
      then_yields (fill_each-Filling t.calls auto (host.callbacks t.calls sql) t f)
        λ u g. yields (refl, ap (λ h. sql ∷ h) g.calls, g.autocommit)

  run_query-bracketed :
      (usefetch : Bool) (nullvalue : Option Obj) (sql : Bytes) (n : ℕ) (s : Session Obj)
      → let code = host.code (began s.autocommit s.calls) sql in
        Yields
          (λ r. (r.1.calls ≡ bracketed s.autocommit code sql s.calls) × Reported code r)
          (run_query usefetch nullvalue (run sql n) s)
  unfolding run_query clear_result run_filling
  run_query-bracketed usefetch nullvalue sql n s =
      let nv = null_element usefetch nullvalue in
      let base = record (clear_result s) { nullvalue = some nv; result = some [] } in
      let t = if_autocommit begin_exec base in
      let c : t.calls ≡ began s.autocommit s.calls = began-calls s.autocommit base in
      let f : Filling t.calls s.autocommit t = record {
        items = [];
        filled = if_cases (λ (u : Session Obj). u.result ≡ some []) s.autocommit refl refl;
        null = nv;
        null_value = if_cases (λ (u : Session Obj). u.nullvalue ≡ some nv) s.autocommit refl refl;
        calls = refl;
        autocommit =
            if_cases (λ (u : Session Obj). u.autocommit ≡ s.autocommit) s.autocommit refl refl;
      } in
      subst
        (λ h.
          Yields
            (λ r.
              (r.1.calls ≡ bracketed s.autocommit (host.code h sql) sql s.calls)
              × Reported (host.code h sql) r)
            (run_query usefetch nullvalue (run sql n) s))
        c
        (then_yields (run_filling-calls sql s.autocommit t f) λ r q.
          subst
            (λ k.
              Yields (λ u. (u.1.calls ≡ bracketed s.autocommit k sql s.calls) × Reported k u)
                (by_code usefetch r.0 r.1))
            q.0
            (by_code-bracketed usefetch s.autocommit r.0 sql s.calls r.1 q.2
              (q.1 ∙ ap (λ h. sql ∷ h) c)))

  -- exec of an open object, with one value for each parameter of the text, always ends with an
  -- answer. Where autocommit is on it runs the text between a begin and an end, or a begin and a
  -- rollback where SQLite reports an error, and nothing else; where it is off it runs the text
  -- alone, and rolls nothing back where SQLite reports an error. After an error the answer is this
  -- error, and no result is left.
  pub exec-bracketed :
      (junk : ℕ) (usefetch flat : Bool) (cmd : Obj) (nullvalue : Option Obj) (objv : List Obj)
      (sql : Bytes) (n : ℕ) (s : Session Obj)
      → sqlite_query junk (string cmd) (Option.map string nullvalue) (map string objv) ≡ run sql n
      → let code = host.code (began s.autocommit s.calls) sql in
        Yields
          (λ r. (r.1.calls ≡ bracketed s.autocommit code sql s.calls) × Reported code r)
          (exec junk true usefetch flat cmd nullvalue objv s)
  unfolding exec
  exec-bracketed junk usefetch flat cmd nullvalue objv sql n s e = rw e (
      run_query-bracketed usefetch nullvalue sql n
        (record s { resultflat = flat_flag usefetch flat }))
