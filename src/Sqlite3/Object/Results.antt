-- ===== src/Sqlite3/Object/Results.antt =====
-- What insert returns, and with which values the statements run.
use tcl_dbi.Base.{
  ℕ, zero, suc, ◌+◌, ◌≡◌, ◌<◌, refl, true, Option, none, some, List, [], ◌∷◌, ◌++◌, ◌==◌, arith, ap,
  ◌∙◌, if◌then◌else◌, inl, inr, Bool-cases, Option-cases, map, length, get_elem?, ◌&&◌,
}
use mathlib.Core.Option
use tcl_dbi.Base.State.{◌>>=◌}
use tcl_dbi.Memory.{Bytes}
use tcl_dbi.Sqlite3.Host.{Host, Stmt, History, bind, clear_bindings, finalize, Binding}
use tcl_dbi.Sqlite3.Session.{Session, Lookup, failed, got, prepare_cached, binding_of}
use tcl_dbi.Sqlite3.Object.Common.{
  bind_each, at_even, at_odd, is_odd, M, ok, with_fields, with_sql, use_lookup, fail, step_failed,
  is_okay, run_step,
}
use tcl_dbi.Sqlite3.Object.Store.{has_id, result_id, insert, insert_names, insert_result}

-- What parameter `i` of statement `n` is bound to, after the calls.
abbrev pub bound_to : ℕ → ℕ → History → Option Binding
bound_to n i [] = none
bound_to n i (bind (some m) j b ∷ cs) = if (n == m) && (i == j) then some b else bound_to n i cs
bound_to n i (clear_bindings (some m) ∷ cs) = if n == m then none else bound_to n i cs
bound_to n i (finalize (some m) ∷ cs) = if n == m then none else bound_to n i cs
bound_to n i (_ ∷ cs) = bound_to n i cs

bind-ne :
    (n i j : ℕ) (b : Binding) (cs : History)
    → i < j
    → bound_to n i (bind (some n) j b ∷ cs) ≡ bound_to n i cs
bind-ne n i j b cs h = ground arith

bind_self :
    (n i j : ℕ) (b : Binding) (cs : History)
    → i ≡ j
    → bound_to n i (bind (some n) j b ∷ cs) ≡ some b
bind_self n i j b cs h = ground arith

module _ ⦃host : Host⦄ where
  open host use {Obj, string, append_element, step_result}

  bind_each-before :
      (n i j : ℕ) (null : Option Bytes) (os : List Obj) (s : Session Obj)
      → i < j
      → bound_to n i (bind_each (some n) j null os s).1.calls ≡ bound_to n i s.calls
  unfolding bind_each
  bind_each-before n i j null [] s h = refl
  bind_each-before n i j null (o ∷ os) s h =
      bind_each-before n i (j + 1) null os _ (omega arith)
      ∙ bind-ne n i j (binding_of null o) s.calls h

  bind_each-bound_to :
      (n j k : ℕ) (null : Option Bytes) (os : List Obj) (o : Obj) (s : Session Obj)
      → get_elem? os k ≡ some o
      → bound_to n (j + k) (bind_each (some n) j null os s).1.calls ≡ some (binding_of null o)
  unfolding bind_each
  bind_each-bound_to n j k null [] o s h = cc
  bind_each-bound_to n j zero null (p ∷ os) o s h =
      bind_each-before n (j + 0) (j + 1) null os _ (omega arith)
      ∙ bind_self n (j + 0) j (binding_of null p) s.calls (omega arith)
      ∙ ap (λ x. some (binding_of null x)) (cc)
  bind_each-bound_to n j (suc k) null (p ∷ os) o s h =
      let e : j + suc k ≡ (j + 1) + k = omega arith in
      rw e (bind_each-bound_to n (j + 1) k null os o _ h)

  get_elem?-first :
      (os : List Obj) (k : ℕ) (v : Obj) (o : Obj)
      → get_elem? os k ≡ some v
      → get_elem? (os ++ o ∷ []) k ≡ some v
  get_elem?-first [] k v o h = cc
  get_elem?-first (p ∷ os) zero v o h = h
  get_elem?-first (p ∷ os) (suc k) v o h = get_elem?-first os k v o h

  get_elem?-last : (os : List Obj) (o : Obj) → get_elem? (os ++ o ∷ []) (length os) ≡ some o
  get_elem?-last [] o = refl
  get_elem?-last (p ∷ os) o = get_elem?-last os o

  -- When set (and insert with an id) runs its statement, parameter `k + 1` is bound to the value that
  -- stands behind the name number `k`, and the parameter after the last of these to the id, each as
  -- the null value and the value's Tcl type say.
  set_parameters :
      (n k : ℕ) (null : Option Bytes) (objv : List Obj) (id v : Obj) (s : Session Obj)
      → get_elem? (at_odd objv) k ≡ some v
      → let calls = (bind_each (some n) 1 null (at_odd objv ++ id ∷ []) s).1.calls in
        (bound_to n (1 + k) calls ≡ some (binding_of null v))
        × (bound_to n (1 + length (at_odd objv)) calls ≡ some (binding_of null id))
  set_parameters n k null objv id v s h = (
    bind_each-bound_to n 1 k null (at_odd objv ++ id ∷ []) v s
        (get_elem?-first (at_odd objv) k v id h),
    bind_each-bound_to n 1 (length (at_odd objv)) null (at_odd objv ++ id ∷ []) id s
        (get_elem?-last (at_odd objv) id),
  )

  -- What a handler that succeeds sets as its result.
  abbrev Gives : (Option Obj → Type 0) → M → Type 0
  Gives P m = (s : Session Obj) (o : Option Obj) → (m s).0 ≡ ok o → P o

  with_sql-Gives :
      {P : Option Obj → Type 0} (next : Stmt → M) (sql : Option Bytes)
      → ((stmt : Stmt) → Gives P (next stmt))
      → Gives P (with_sql next sql)
  unfolding with_sql
  with_sql-Gives next none k s o h = cc
  with_sql-Gives {P} next (some sql) k s o h = looked (prepare_cached sql s).0 _ h
    where
      looked : (l : Lookup) (t : Session Obj) → (use_lookup next l t).0 ≡ ok o → P o
      looked (failed c) t e = cc
      looked (got stmt) t e = k stmt t o e

  stepped-Gives :
      {P : Option Obj → Type 0} (stmt : Stmt) (found : M)
      → Gives P found
      → Gives P (run_step stmt >>= λ code. if is_okay code then found else fail stmt step_failed)
  stepped-Gives stmt found k s o h = elim (Bool-cases (is_okay (step_result s.calls stmt))) [
    | inl e ↦ k _ o (rw e at h)
    | inr e ↦ cc (rw e at h)
  ]

  abbrev Appended : Obj → Option Obj → List Obj → Option Obj → Type 0
  Appended table id objv o =
      (calls : History) × (append_element table (result_id id objv calls) ≡ o)

  module _ (junk : ℕ) (table : Obj) (id : Option Obj) (objv : List Obj) where
    insert_result-Gives :
        (stmt : Stmt) → Gives (Appended table id objv) (insert_result table id objv stmt)
    unfolding insert_result
    insert_result-Gives stmt s o h =
        elim (Option-cases (append_element table (result_id id objv s.calls))) [
          | inl e ↦ cc (rw (e, insert_result) at h)
          | inr (r, e) ↦ (s.calls, e ∙ cc (rw (e, insert_result) at h))
        ]

    insert_names-Gives :
        (null : Option Bytes) (names : List Bytes)
        → Gives (Appended table id objv) (insert_names junk table id null objv names)
    unfolding insert_names with_sql
    insert_names-Gives null [] s o h = cc
    insert_names-Gives null (f ∷ fs) s o h = elim (Bool-cases (is_odd (length objv))) [
      | inl e ↦ cc (rw e at h)
      | inr e ↦
          with_sql-Gives _ _ (λ stmt t. stepped-Gives stmt _ (insert_result-Gives stmt) _) s o
            (rw e at h)
    ]

  module _ (junk : ℕ) (table f v : Obj) (rest : List Obj) (nullvalue : Option Obj) (s : Session Obj)
      (o : Option Obj) where
    -- An insert that succeeds sets as its result the table with one element appended: the id that was
    -- given apart, else `result_id`'s choice among the fields and SQLite's last row id.
    insert-Appended :
        (id : Option Obj)
        → (insert junk table id nullvalue (f ∷ v ∷ rest) s).0 ≡ ok o
        → (calls : History) × (append_element table (result_id id (f ∷ v ∷ rest) calls) ≡ o)
    unfolding insert with_fields
    insert-Appended id h =
        insert_names-Gives junk table id (f ∷ v ∷ rest) (Option.map string nullvalue)
          (map string (at_even (f ∷ v ∷ rest))) s o h

    -- An insert that names the column `id` anywhere among its fields, and succeeds, sets as its
    -- result the table with the value of the first field appended, whichever field that is.
    insert-first_value :
        has_id (at_even (f ∷ v ∷ rest)) ≡ true
        → (insert junk table none nullvalue (f ∷ v ∷ rest) s).0 ≡ ok o
        → append_element table v ≡ o
    unfolding result_id
    insert-first_value named h = rw (named, result_id) at ((insert-Appended none h).1)
