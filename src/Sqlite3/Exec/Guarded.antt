-- ===== src/Sqlite3/Exec/Guarded.antt =====
-- Every stage of a round of exec keeps the automatic transaction within reach of its end.
use tcl_dbi.Base.{
  ◌≡◌, refl, ◌∙◌, false, Option, none, some, ◌&&◌, ◌⊎◌, inl, inr, if_cases, ltb, length, take,
}
use tcl_dbi.Base.State.{◌>>=◌}
use tcl_dbi.Memory.{Bytes, bytes_eq, codes}
use tcl_dbi.Sqlite3.Host.{Host, StepCode, row, done, failure, misuse, okay, other}
use tcl_dbi.Sqlite3.Session.{Session}
use tcl_dbi.Sqlite3.Object.Common.{bind_each}
use tcl_dbi.Sqlite3.Transaction.{begin_text, transaction_start}
use tcl_dbi.Sqlite3.Exec.{
  E, ExecError, Executed, endless, Request, Run, Entry, no_entry, fresh, existing, Round, over,
  again, last, Ahead, ahead, ahead_endless, only_one_command, transaction_refused,
  wrong_number_of_arguments, running_statement, preparing_statement, look_ahead,
}
use tcl_dbi.Sqlite3.Exec.Main.{
  fail_round, seen, is_empty, see_next, set_entry, store_entry, begun, begin, bind_arguments,
  is_last, ran, run_statement, continue_with, round,
}
use tcl_dbi.Sqlite3.Exec.Closed.{
  unended, after_text, Guarded, error_label-closed, look_ahead-Same, bind_each-Same,
}

module _ ⦃host : Host⦄ where
  open host use {Obj, exec_error, parameter_count, column_names}

  abbrev pub Ends : Executed Obj → Session Obj → Type 0
  Ends o s = (o ≡ endless) ⊎ (unended s.calls ≡ false)

  abbrev pub Fine : Round Obj → Session Obj → Type 0
  Fine (over o) s = Ends o s
  Fine (again r) s = Guarded r s
  Fine (last code r) s = Guarded r s

  abbrev pub FineAt : Session Obj → E (Round Obj) → Type 0
  FineAt s m = Fine (m s).0 (m s).1

  -- A stage that keeps it so.
  abbrev pub FineStage : (Run Obj → E (Round Obj)) → Type 0
  FineStage m = (r : Run Obj) (s : Session Obj) → Guarded r s → FineAt s (m r)

  same-Guarded :
      (r : Run Obj) (s t : Session Obj)
      → unended t.calls ≡ unended s.calls
      → Guarded r s
      → Guarded r t
  same-Guarded r s t e (inl g) = inl g
  same-Guarded r s t e (inr g) = inr (e ∙ g)

  fail_round-Fine : (q : Request) (e : ExecError) → FineStage (λ r. fail_round q r e)
  fail_round-Fine q e r s h = inr (error_label-closed q r e s h)

  seen-Fine : (a : Ahead) → FineStage (λ r. seen r a)
  seen-Fine ahead_endless r s h = inl refl
  seen-Fine (ahead stmt rest e m) r s h = h

  see_next-Fine : (q : Request) → FineStage (see_next q)
  unfolding see_next
  see_next-Fine q r s h = if_cases (FineAt s) (is_empty r.nextsql) h (
      seen-Fine (look_ahead q.fuel r.nextsql s).0 r (look_ahead q.fuel r.nextsql s).1
        (same-Guarded r s (look_ahead q.fuel r.nextsql s).1 (look_ahead-Same q.fuel r.nextsql s) h))

  set_entry-Fine : (e : Entry) (q : Request) → FineStage (set_entry e q)
  set_entry-Fine fresh q r s h = h
  set_entry-Fine no_entry q r s h = h
  set_entry-Fine existing q r s h = h

  store_entry-Fine : (q : Request) → FineStage (store_entry q)
  unfolding store_entry
  store_entry-Fine q r s h =
      if_cases (FineAt s) q.cache
        (if_cases (FineAt s) r.multisql (fail_round-Fine q only_one_command r s h)
          (set_entry-Fine r.entry q r s h))
        h

  begun-Fine :
      (q : Request) (error : Option Bytes) (r : Run Obj) (s t : Session Obj)
      → Guarded r s
      → unended t.calls ≡ after_text begin_text error (unended s.calls)
      → Fine (begun q r error t).0 (begun q r error t).1
  begun-Fine q none r s t h e = inl refl
  begun-Fine q (some message) r s t h e =
      if_cases (FineAt t)
        (bytes_eq (codes "cannot start a transaction within a transaction") message)
        (same-Guarded r s t e h)
        (fail_round-Fine q transaction_refused r t (same-Guarded r s t e h))

  begin-Fine : (q : Request) → FineStage (begin q)
  unfolding begin transaction_start
  begin-Fine q r s h =
      if_cases (FineAt s) (r.first && r.multisql)
        (begun-Fine q (exec_error s.calls begin_text) r s (transaction_start s).1 h refl) h

  bind_arguments-Fine : (q : Request) → FineStage (bind_arguments q)
  unfolding bind_arguments
  bind_arguments-Fine q r s h =
      let n = parameter_count s.calls r.stmt in
      let bound = bind_each r.stmt 1 q.null (take n r.objv) in
      if_cases (λ (x : Round Obj × Session Obj). Fine x.0 x.1) (ltb (length r.objv) n)
        (fail_round-Fine q wrong_number_of_arguments r s h)
        (same-Guarded r s (bound s).1 (bind_each-Same r.stmt 1 q.null (take n r.objv) s) h)

  ran-Fine : (q : Request) (code : StepCode) → FineStage (λ r. ran q r code)
  ran-Fine q failure r s h = fail_round-Fine q running_statement r s h
  ran-Fine q misuse r s h = fail_round-Fine q running_statement r s h
  ran-Fine q row r s h = if_cases (FineAt s) (is_last r.stmt2 r.error2) h h
  ran-Fine q done r s h = if_cases (FineAt s) (is_last r.stmt2 r.error2) h h
  ran-Fine q okay r s h = if_cases (FineAt s) (is_last r.stmt2 r.error2) h h
  ran-Fine q (other c) r s h = if_cases (FineAt s) (is_last r.stmt2 r.error2) h h

  run_statement-Fine : (q : Request) → FineStage (run_statement q)
  unfolding run_statement
  run_statement-Fine q r s h = ran-Fine q _ r _ h

  then-Fine :
      (m : E (Round Obj)) (k : Run Obj → E (Round Obj)) (s : Session Obj)
      → FineAt s m
      → FineStage k
      → FineAt s (m >>= λ x. continue_with x k)
  then-Fine m k s h f = go (m s).0 (m s).1 h
    where
      go : (x : Round Obj) (t : Session Obj) → Fine x t → FineAt t (continue_with x k)
      go (over o) t g = g
      go (again r) t g = f r t g
      go (last code r) t g = g

  pub round-Fine : (q : Request) → FineStage (round q)
  unfolding round
  round-Fine q r s h = if_cases (FineAt s) r.error (fail_round-Fine q preparing_statement r s h) (
      then-Fine
        (see_next q r >>= λ x. continue_with x (store_entry q) >>= λ x.
          continue_with x (begin q) >>= λ x. continue_with x (bind_arguments q))
        (run_statement q) s
        (then-Fine
          (see_next q r >>= λ x. continue_with x (store_entry q) >>= λ x. continue_with x (begin q))
          (bind_arguments q) s
          (then-Fine (see_next q r >>= λ x. continue_with x (store_entry q)) (begin q) s
            (then-Fine (see_next q r) (store_entry q) s (see_next-Fine q r s h)
              (store_entry-Fine q))
            (begin-Fine q))
          (bind_arguments-Fine q))
        (run_statement-Fine q))
