-- ===== src/Sqlite3/Exec/Ended.antt =====
-- A whole exec asks for the end of the automatic transaction that it began.
use tcl_dbi.Base.{
  ℕ, zero, suc, ◌≡◌, refl, ◌∙◌, ◌≢◌, Bool, true, false, Option, none, some, List, [], ◌∷◌, inl, inr,
  if_cases, if_cases_by,
}
use mathlib.Core.Option
use tcl_dbi.Base.State.{pure, ◌>>◌}
use tcl_dbi.Memory.{Bytes}
use tcl_dbi.Sqlite3.Host.{Host, Stmt, StepCode, row, done, failure, misuse, okay, other}
use tcl_dbi.Sqlite3.Session.{Session, find, clear_result, reset_and_clear}
use tcl_dbi.Sqlite3.Transaction.{transaction_commit}
use tcl_dbi.Sqlite3.Exec.{
  E, ExecError, Executed, ok, endless, Request, Run, Entry, no_entry, fresh, existing, Round, over,
  again, last, commit_failed, executing_command, reading_rows, Rows, rows, stopped, null_row,
  unending, First, first_refused, first_endless, first_found, exec_error_label, prepare_first,
  fetch_rows,
}
use tcl_dbi.Sqlite3.Exec.Main.{
  round, keep, with_rows, no_rows, with_columns, report, by_code, committed, after_loop, next_round,
  loop, start, from_first, first_statement, from_cache, null_of, exec_open, exec,
}
use tcl_dbi.Sqlite3.Exec.Closed.{
  unended, Guarded, error_label-closed, clear_result-Same, prepare_first-Same, fetch_rows-Same,
}
use tcl_dbi.Sqlite3.Exec.Guarded.{Ends, Fine, round-Fine}

module _ ⦃host : Host⦄ where
  open host use {Obj, string, new_list, new_int, changes, exec_error, column_names}

  abbrev EndsAt : Session Obj → E (Executed Obj) → Type 0
  EndsAt s m = Ends (m s).0 (m s).1

  abbrev Closed : Session Obj → Type 0
  Closed s = unended s.calls ≡ false

  label-Ends :
      (q : Request) (r : Run Obj) (s : Session Obj) (e : ExecError)
      → Guarded r s
      → EndsAt s (exec_error_label q r e)
  label-Ends q r s e h = inr (error_label-closed q r e s h)

  cleared-Ends : (s : Session Obj) (o : Executed Obj) → Closed s → EndsAt s (clear_result >> pure o)
  cleared-Ends s o h = inr (clear_result-Same s ∙ h)

  with_rows-Ends :
      (q : Request) (r : Run Obj) (x : Rows Obj) (s : Session Obj)
      → Closed s
      → EndsAt s (with_rows q r x)
  with_rows-Ends q r (rows lines) s h = cleared-Ends s (ok (some (new_list lines))) h
  with_rows-Ends q r stopped s h = label-Ends q r s reading_rows (inr h)
  with_rows-Ends q r null_row s h = inr h
  with_rows-Ends q r unending s h = inl refl

  no_rows-Ends : (code : StepCode) (s : Session Obj) → Closed s → EndsAt s (no_rows code)
  no_rows-Ends done s h =
      inr (clear_result-Same (record s { own = record s.own { tuple = none } }) ∙ h)
  no_rows-Ends row s h = cleared-Ends s (ok none) h
  no_rows-Ends okay s h = cleared-Ends s (ok none) h
  no_rows-Ends failure s h = cleared-Ends s (ok none) h
  no_rows-Ends misuse s h = cleared-Ends s (ok none) h
  no_rows-Ends (other c) s h = cleared-Ends s (ok none) h

  with_columns-Ends :
      (q : Request) (code : StepCode) (r : Run Obj) (names : List Bytes) (s : Session Obj)
      → Closed s
      → EndsAt s (with_columns q code r names)
  with_columns-Ends q code r [] s h = no_rows-Ends code s h
  with_columns-Ends q code r (_ ∷ _) s h =
      let fetched = fetch_rows q.fuel q.flat r.stmt code [] s in
      with_rows-Ends q r fetched.0 fetched.1 (fetch_rows-Same q.fuel q.flat r.stmt code [] s ∙ h)

  report-Ends :
      (q : Request) (code : StepCode) (r : Run Obj) (s : Session Obj)
      → Closed s
      → EndsAt s (report q code r)
  unfolding report
  report-Ends q code r s h =
      if_cases (λ (x : Executed Obj × Session Obj). Ends x.0 x.1) q.use_fetch (inr h)
        (with_columns-Ends q code r (column_names s.calls r.stmt) (keep q r s).1 h)

  by_code-Ends :
      (q : Request) (code : StepCode) (r : Run Obj) (s : Session Obj)
      → Closed s
      → EndsAt s (by_code q code r)
  unfolding by_code
  by_code-Ends q row r s h = report-Ends q row r s h
  by_code-Ends q done r s h = report-Ends q done r s h
  by_code-Ends q okay r s h = label-Ends q r s executing_command (inr h)
  by_code-Ends q failure r s h = label-Ends q r s executing_command (inr h)
  by_code-Ends q misuse r s h = label-Ends q r s executing_command (inr h)
  by_code-Ends q (other c) r s h = label-Ends q r s executing_command (inr h)

  committed-Ends :
      (q : Request) (code : StepCode) (r : Run Obj) (s : Session Obj) (b : Bool)
      → r.toclose ≡ true
      → (b ≡ true → Closed s)
      → EndsAt s (committed q code r b)
  committed-Ends q code r s true t h = by_code-Ends q code r s (h refl)
  committed-Ends q code r s false t h = label-Ends q r (clear_result s).1 commit_failed (inl t)

  guard-Closed : (r : Run Obj) (s : Session Obj) → r.toclose ≡ false → Guarded r s → Closed s
  guard-Closed r s f (inl t) = cc
  guard-Closed r s f (inr g) = g

  commit-Closed :
      (s : Session Obj) → (transaction_commit s).0 ≡ true → Closed (transaction_commit s).1
  unfolding transaction_commit
  commit-Closed s h = rw h refl

  after_loop-Ends :
      (q : Request) (code : StepCode) (r : Run Obj) (s : Session Obj)
      → Guarded r s
      → EndsAt s (after_loop q code r)
  unfolding after_loop
  after_loop-Ends q code r s g =
      if_cases_by (EndsAt s) r.toclose
        (λ t.
          committed-Ends q code r (transaction_commit s).1 (transaction_commit s).0 t
            (commit-Closed s))
        (λ f. by_code-Ends q code r s (guard-Closed r s f g))

  next_round-Ends :
      (q : Request) (next : Run Obj → E (Executed Obj)) (x : Round Obj) (s : Session Obj)
      → ((r : Run Obj) (t : Session Obj) → Guarded r t → EndsAt t (next r))
      → Fine x s
      → EndsAt s (next_round q next x)
  next_round-Ends q next (over o) s k h = h
  next_round-Ends q next (again r) s k h = k r s h
  next_round-Ends q next (last code r) s k h = after_loop-Ends q code r s h

  loop-Ends :
      (f : ℕ) (q : Request) (r : Run Obj) (s : Session Obj) → Guarded r s → EndsAt s (loop f q r)
  unfolding loop
  loop-Ends zero q r s g = inl refl
  loop-Ends (suc f) q r s g =
      next_round-Ends q (loop f q) (round q r s).0 (round q r s).1 (loop-Ends f q)
        (round-Fine q r s g)

  from_first-Ends :
      (q : Request) (e : Entry) (objv : List Obj) (x : First) (s : Session Obj)
      → Closed s
      → EndsAt s (from_first q e objv x)
  unfolding from_first
  from_first-Ends q e objv first_endless s h = inl refl
  from_first-Ends q e objv first_refused s h =
      loop-Ends q.fuel q (start none [] true e objv) s (inr h)
  from_first-Ends q e objv (first_found n rest) s h =
      loop-Ends q.fuel q (start (some n) rest false e objv) s (inr h)

  first_statement-Ends :
      (q : Request) (e : Entry) (objv : List Obj) (sql : Bytes) (s : Session Obj)
      → Closed s
      → EndsAt s (first_statement q e objv sql)
  unfolding first_statement
  first_statement-Ends q e objv sql s h =
      let found = prepare_first q.fuel sql s in
      from_first-Ends q e objv found.0 found.1 (prepare_first-Same q.fuel sql s ∙ h)

  from_cache-Ends :
      (q : Request) (objv : List Obj) (hit : Option Stmt) (s : Session Obj)
      → Closed s
      → EndsAt s (from_cache q objv hit)
  from_cache-Ends q objv none s h = first_statement-Ends q fresh objv q.cmd s h
  from_cache-Ends q objv (some none) s h =
      first_statement-Ends q existing objv [] (reset_and_clear none s).1 h
  from_cache-Ends q objv (some (some n)) s h =
      from_first-Ends q existing objv (first_found n []) (reset_and_clear (some n) s).1 h

  exec_open-Ends :
      (q : Request) (nullvalue : Option Obj) (objv : List Obj) (s : Session Obj)
      → Closed s
      → EndsAt s (exec_open q nullvalue objv)
  unfolding exec_open
  exec_open-Ends q nullvalue objv s h =
      let s' = record (clear_result s).1 {
        nullvalue = some (null_of q nullvalue s.defnullvalue);
      } in
      if_cases (λ (x : Executed Obj × Session Obj). Ends x.0 x.1) q.cache
        (from_cache-Ends q objv (find q.cmd s'.cache) s' (clear_result-Same s ∙ h))
        (first_statement-Ends q no_entry objv q.cmd s' (clear_result-Same s ∙ h))

  -- Of the texts of a transaction that exec itself sends: if before the call every `begin` of exec
  -- that SQLite accepted was followed by a `commit` that it accepted (or answered that no
  -- transaction is active) or by a `rollback` that was asked for, whatever its answer, then the
  -- same holds when exec returns, with a result or with an error, for all statements, answers of
  -- SQLite and options. Nothing is said of what SQLite does on the `rollback`, nor of the
  -- transactions that the statements of the user begin.
  pub exec-ended :
      (is_open : Bool) (q : Request) (nullvalue : Option Obj) (objv : List Obj) (s : Session Obj)
      → unended s.calls ≡ false
      → (exec is_open q nullvalue objv s).0 ≢ endless
      → unended (exec is_open q nullvalue objv s).1.calls ≡ false
  unfolding exec
  exec-ended false q nullvalue objv s h n = h
  exec-ended true q nullvalue objv s h n =
      elim (exec_open-Ends (record q { null = Option.map string nullvalue }) nullvalue objv s h) [
        | inl e ↦ absurd (n e)
        | inr e ↦ e
      ]
