-- ===== src/Sqlite3/Exec/Closed.antt =====
-- The automatic transaction of exec, as the texts show that exec itself sends.
use tcl_dbi.Base.{
  ℕ, zero, suc, ◌+◌, ◌≡◌, refl, Bool, true, false, not, Option, none, some, List, [], ◌∷◌, ◌&&◌,
  ◌||◌, if◌then◌else◌, arith, ◌⊎◌, inl, inr, Bool-cases,
}
use tcl_dbi.Memory.{Bytes, bytes_eq, codes}
use tcl_dbi.Sqlite3.Host.{
  Host, Stmt, StepCode, row, done, failure, misuse, okay, other, Prepared, refused, ready, prepare,
  step, History, Call,
}
use tcl_dbi.Sqlite3.Session.{
  Session, call, Pending, clear_pending, clear_each, clear_result, release,
}
use tcl_dbi.Sqlite3.Row.{get_row}
use tcl_dbi.Sqlite3.Object.Common.{bind_each}
use tcl_dbi.Sqlite3.Transaction.{
  begin_text, commit_text, rollback_text, lets_through, transaction_rollback,
}
use tcl_dbi.Sqlite3.Exec.{
  E, ExecError, Request, Run, Entry, drop_entry, finalize_if, rollback_if, exec_error_label, Rows,
  First, Ahead, first_of, ahead_of, rows_of, add_row, prepare_first, look_ahead, fetch_rows,
}

module _ ⦃host : Host⦄ where
  open host use {Obj, exec_error, prepare_result, column_values, step_result}

  abbrev accepted : Option Bytes → Bool
  accepted none = true
  accepted (some message) = false

  abbrev no_transaction : Bytes
  no_transaction = codes "cannot commit - no transaction is active"

  abbrev pub after_text : Bytes → Option Bytes → Bool → Bool
  after_text sql error before =
      if bytes_eq sql begin_text
      then accepted error || before
      else if bytes_eq sql commit_text
      then not (lets_through no_transaction error) && before
      else if bytes_eq sql rollback_text
      then false
      else before

  -- A `begin` of exec was accepted, and since then no `commit` of it was accepted (or answered that
  -- there was nothing to commit) and no `rollback` was asked for. What SQLite made of the `rollback`,
  -- and the transactions of the statements of the user, do not count.
  abbrev pub unended : History → Bool
  unended [] = false
  unended (Call.exec sql ∷ cs) = after_text sql (exec_error cs sql) (unended cs)
  unended (_ ∷ cs) = unended cs

  -- A step that neither begins a transaction nor ends one.
  abbrev pub Same : {A : Type 0} → E A → Type 0
  Same m = (s : Session Obj) → unended (m s).1.calls ≡ unended s.calls

  clear_pending-Same : (p : Pending) (cs : History) → unended (clear_pending p cs).1 ≡ unended cs
  unfolding clear_pending
  clear_pending-Same p cs = ground arith

  clear_each-Same : (ps : List Pending) (cs : History) → unended (clear_each ps cs).1 ≡ unended cs
  unfolding clear_each
  clear_each-Same [] cs = refl
  clear_each-Same (p ∷ ps) cs = rw (clear_each-Same ps, clear_pending-Same)

  pub clear_result-Same : Same clear_result
  unfolding clear_result
  clear_result-Same s = rw (clear_pending-Same, clear_each-Same)

  finalize_if-Same : (stmt : Stmt) → Same (finalize_if stmt)
  finalize_if-Same none s = refl
  finalize_if-Same (some n) s = refl

  release-Same : (stmt : Stmt) → Same (release stmt)
  release-Same none s = refl
  release-Same (some n) s = refl

  drop_entry-Same : (e : Entry) (sql : Bytes) → Same (drop_entry e sql)
  drop_entry-Same e sql s = ground arith

  -- Ended, unless the error label will ask for the rollback.
  abbrev pub Guarded : Run Obj → Session Obj → Type 0
  Guarded r s = (r.toclose ≡ true) ⊎ (unended s.calls ≡ false)

  rollback-closed :
      (r : Run Obj) (s : Session Obj)
      → Guarded r s
      → unended (rollback_if r.toclose s).1.calls ≡ false
  unfolding transaction_rollback
  rollback-closed r s (inl e) = rw e refl
  rollback-closed r s (inr e) = elim (Bool-cases r.toclose) [ inl f ↦ rw f refl | inr f ↦ rw f e ]

  pub error_label-closed :
      (q : Request) (r : Run Obj) (e : ExecError) (s : Session Obj)
      → Guarded r s
      → unended (exec_error_label q r e s).1.calls ≡ false
  unfolding exec_error_label
  error_label-closed q r e s h =
      rw (clear_result-Same, finalize_if-Same)
        (elim (Bool-cases q.cache) [
          | inl c ↦ rw (c, release-Same, drop_entry-Same) (rollback-closed r s h)
          | inr c ↦ rw (c, finalize_if-Same, drop_entry-Same) (rollback-closed r s h)
        ])

  pub bind_each-Same :
      (stmt : Stmt) (j : ℕ) (null : Option Bytes) (os : List Obj) → Same (bind_each stmt j null os)
  unfolding bind_each
  bind_each-Same stmt j null [] s = refl
  bind_each-Same stmt j null (o ∷ os) s = rw (bind_each-Same stmt (j + 1) null os)

  first_of-Same :
      (next : Bytes → E First) (p : Prepared)
      → ((rest : Bytes) → Same (next rest))
      → Same (first_of next p)
  first_of-Same next (refused e) h s = refl
  first_of-Same next (ready (some n) rest) h s = refl
  first_of-Same next (ready none rest) h s = h rest s

  pub prepare_first-Same : (f : ℕ) (sql : Bytes) → Same (prepare_first f sql)
  unfolding prepare_first
  prepare_first-Same zero sql s = refl
  prepare_first-Same (suc f) sql s =
      first_of-Same (prepare_first f) (prepare_result s.calls sql) (prepare_first-Same f)
        (call (prepare sql) s).1

  ahead_of-Same :
      (sql : Bytes) (next : E Ahead) (p : Prepared) → Same next → Same (ahead_of sql next p)
  ahead_of-Same sql next (refused e) h s = refl
  ahead_of-Same sql next (ready (some n) rest) h s = refl
  ahead_of-Same sql next (ready none []) h s = refl
  ahead_of-Same sql next (ready none (c ∷ rest)) h s = h s

  pub look_ahead-Same : (f : ℕ) (sql : Bytes) → Same (look_ahead f sql)
  unfolding look_ahead
  look_ahead-Same zero sql s = refl
  look_ahead-Same (suc f) sql s =
      ahead_of-Same sql (look_ahead f sql) (prepare_result s.calls sql) (look_ahead-Same f sql)
        (call (prepare sql) s).1

  rows_of-Same :
      (next : List Obj → E (Rows Obj)) (line : Option (List Obj))
      → ((l : List Obj) → Same (next l))
      → Same (rows_of next line)
  rows_of-Same next none h s = refl
  rows_of-Same next (some line) h s = h line s

  pub fetch_rows-Same :
      (f : ℕ) (flat : Bool) (stmt : Stmt) (code : StepCode) (acc : List Obj)
      → Same (fetch_rows f flat stmt code acc)
  unfolding fetch_rows
  fetch_rows-Same f flat stmt done acc s = refl
  fetch_rows-Same zero flat stmt row acc s = refl
  fetch_rows-Same (suc f) flat stmt row acc s =
      rows_of-Same _ (get_row s.nullvalue (column_values s.calls stmt))
        (λ line t.
          fetch_rows-Same f flat stmt (step_result t.calls stmt) (add_row flat acc line)
            (call (step stmt) t).1)
        s
  fetch_rows-Same f flat stmt okay acc s = refl
  fetch_rows-Same f flat stmt failure acc s = refl
  fetch_rows-Same f flat stmt misuse acc s = refl
  fetch_rows-Same f flat stmt (other c) acc s = refl
