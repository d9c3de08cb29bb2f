-- ===== src/Sqlite3/Exec/Endless.antt =====
-- exec of texts on which its loops never end.
use tcl_dbi.Base.{
  ℕ, zero, suc, ◌≡◌, ◌≢◌, refl, ◌∙◌, ap, Bool, true, false, Option, none, some, List, [], ◌∷◌,
  length, le→ltb, arith, if_cases,
}
use mathlib.Core.Option
use tcl_dbi.Memory.{Bytes}
use tcl_dbi.Sqlite3.Host.{
  Host, History, prepare, Stmt, StepCode, row, done, okay, other, failure, misuse, ready,
}
use tcl_dbi.Sqlite3.Session.{Session, find, clear_result}
use tcl_dbi.Sqlite3.Object.Common.{run_step, bind_each}
use tcl_dbi.Sqlite3.Transaction.{begin_text, transaction_start}
use tcl_dbi.Sqlite3.Exec.{
  Executed, endless, Request, Run, Round, again, Entry, no_entry, fresh, first_endless,
  prepare_first, look_ahead,
}
use tcl_dbi.Sqlite3.Exec.Main.{
  null_of, see_next, store_entry, begin, bind_arguments, ran, run_statement, round, next_round,
  loop, start, from_first, first_statement, from_cache, exec_open,
}
use tcl_dbi.Sqlite3.Host
use tcl_dbi.Sqlite3.Exec.Main
use tcl_dbi.Sqlite3.Exec.Single.{plain}

module _ ⦃host : Host⦄ where
  open host use {Obj, string, prepare_result, step_result, parameter_count, exec_error}

  prepare_first-endless :
      (f : ℕ) (sql : Bytes) (s : Session Obj)
      → ((cs : History) → prepare_result cs sql ≡ ready none [])
      → ((cs : History) → prepare_result cs [] ≡ ready none [])
      → (prepare_first f sql s).0 ≡ first_endless
  unfolding prepare_first
  prepare_first-endless zero sql s h e = refl
  prepare_first-endless (suc f) sql s h e = rw (h s.calls) (prepare_first-endless f [] _ e e)

  first_statement-endless :
      (q : Request) (entry : Entry) (objv : List Obj) (s : Session Obj)
      → ((cs : History) → prepare_result cs q.cmd ≡ ready none [])
      → ((cs : History) → prepare_result cs [] ≡ ready none [])
      → (first_statement q entry objv q.cmd s).0 ≡ endless
  unfolding first_statement from_first
  first_statement-endless q entry objv s h e = rw (prepare_first-endless q.fuel q.cmd s h e) refl

  -- `exec` of a text in which SQLite finds no statement (an empty text, white space, a comment)
  -- never returns: whatever fuel its loops are given, it is used up. The text is not in the
  -- statement cache, and SQLite answers the empty text alike.
  pub exec-no_statement :
      (q : Request) (nullvalue : Option Obj) (objv : List Obj) (s : Session Obj)
      → ((cs : History) → prepare_result cs q.cmd ≡ ready none [])
      → ((cs : History) → prepare_result cs [] ≡ ready none [])
      → find q.cmd (clear_result s).1.cache ≡ none
      → (Main.exec true q nullvalue objv s).0 ≡ endless
  unfolding Main.exec exec_open
  exec-no_statement q nullvalue objv s h e c =
      let q' = record q { null = Option.map string nullvalue } in
      let s' = record (clear_result s).1 {
        nullvalue = some (null_of q' nullvalue s.defnullvalue);
      } in
      if_cases (λ (x : Executed Obj × Session Obj). x.0 ≡ endless) q.cache
        (ap (λ hit. (from_cache q' objv hit s').0) c ∙ first_statement-endless q' fresh objv s' h e)
        (first_statement-endless q' no_entry objv s' h e)

  -- From the second round on, when the look behind the first statement found the last one.
  abbrev stuck : Stmt → List Obj → Run Obj
  stuck stmt objv = record {
    stmt = stmt;
    nextsql = [];
    error = false;
    stmt2 = stmt;
    nextsql2 = [];
    error2 = false;
    multisql = true;
    first = false;
    toclose = true;
    entry = no_entry;
    objv = objv;
  }

  ran-again :
      (q : Request) (m : ℕ) (r : Run Obj) (code : StepCode) (s : Session Obj)
      → code ≢ failure
      → code ≢ misuse
      → r.stmt2 ≡ some m
      → ran q r code s
        ≡ (again (record r { stmt = r.stmt2; nextsql = r.nextsql2; error = r.error2 }), s)
  ran-again q m r failure s f g e = absurd (f refl)
  ran-again q m r misuse s f g e = absurd (g refl)
  ran-again q m r row s f g e = rw e refl
  ran-again q m r done s f g e = rw e refl
  ran-again q m r okay s f g e = rw e refl
  ran-again q m r (other c) s f g e = rw e refl

  module _ (m : ℕ) (binds_nothing : (cs : History) (stmt : Stmt) → parameter_count cs stmt ≡ 0)
      (no_failure : (cs : History) (stmt : Stmt) → step_result cs stmt ≢ failure)
      (no_misuse : (cs : History) (stmt : Stmt) → step_result cs stmt ≢ misuse) where
    bind_arguments-none :
        (q : Request) (r : Run Obj) (s : Session Obj) → bind_arguments q r s ≡ (again r, s)
    unfolding bind_arguments bind_each
    bind_arguments-none q r s =
        rw (binds_nothing s.calls r.stmt, le→ltb (length r.objv) 0 (omega arith)) refl

    run_statement-again :
        (q : Request) (r : Run Obj) (s : Session Obj)
        → r.stmt2 ≡ some m
        → run_statement q r s ≡ (
          again (record r { stmt = r.stmt2; nextsql = r.nextsql2; error = r.error2 }),
          (run_step r.stmt s).1,
        )
    unfolding run_statement
    run_statement-again q r s e =
        ran-again q m r (step_result s.calls r.stmt) (run_step r.stmt s).1
          (no_failure s.calls r.stmt) (no_misuse s.calls r.stmt) e

    round-stuck :
        (flat : Bool) (cmd : Bytes) (null : Option Bytes) (fuel : ℕ) (objv : List Obj)
        (s : Session Obj)
        → round (plain flat cmd null fuel) (stuck (some m) objv) s
          ≡ (again (stuck (some m) objv), (run_step (some m) s).1)
    unfolding round see_next store_entry begin
    round-stuck flat cmd null fuel objv s =
        let q = plain flat cmd null fuel in
        let r = stuck (some m) objv in
        rw (bind_arguments-none q r s) (run_statement-again q r s refl)

    loop-stuck :
        (f : ℕ) (flat : Bool) (cmd : Bytes) (null : Option Bytes) (fuel : ℕ) (objv : List Obj)
        (s : Session Obj)
        → (loop f (plain flat cmd null fuel) (stuck (some m) objv) s).0 ≡ endless
    unfolding loop
    loop-stuck zero flat cmd null fuel objv s = refl
    loop-stuck (suc f) flat cmd null fuel objv s =
        ap
          (λ (x : Round Obj × Session Obj).
            (next_round (plain flat cmd null fuel) (loop f (plain flat cmd null fuel)) x.0 x.1).0)
          (round-stuck flat cmd null fuel objv s)
        ∙ loop-stuck f flat cmd null fuel objv (run_step (some m) s).1

    -- The first round, once the transaction is begun.
    abbrev opening : ℕ → Bytes → List Obj → Run Obj
    opening n rest objv = record (start (some n) rest false no_entry objv) {
      stmt2 = some m;
      multisql = true;
      first = false;
      toclose = true;
    }

    round-first :
        (flat : Bool) (cmd : Bytes) (null : Option Bytes) (fuel : ℕ) (n : ℕ) (c : ℕ) (rest : Bytes)
        (objv : List Obj) (s : Session Obj)
        → ((cs : History) → prepare_result cs (c ∷ rest) ≡ ready (some m) [])
        → ((cs : History) → exec_error cs begin_text ≡ none)
        → (round
            (plain flat cmd null (suc fuel))
            (start (some n) (c ∷ rest) false no_entry objv)
            s).0
          ≡ again (stuck (some m) objv)
    unfolding round see_next look_ahead store_entry begin transaction_start
    round-first flat cmd null fuel n c rest objv s p b =
        let q = plain flat cmd null (suc fuel) in
        let s' = record s { calls = Host.exec begin_text ∷ prepare (c ∷ rest) ∷ s.calls } in
        let r = opening n (c ∷ rest) objv in
        rw (p s.calls, b, bind_arguments-none q r s')
          (ap (λ (x : Round Obj × Session Obj). x.0) (run_statement-again q r s' refl))

    -- `exec` of a text of two statements with nothing behind the second never returns, whatever fuel
    -- its loops are given: the second statement is stepped again and again. The statements have no
    -- parameters, SQLite accepts the transaction, and no step answers SQLITE_ERROR or SQLITE_MISUSE.
    pub exec-two_statements :
        (flat : Bool) (cmd : Bytes) (fuel : ℕ) (nullvalue : Option Obj) (objv : List Obj) (n c : ℕ)
        (rest : Bytes) (s : Session Obj)
        → ((cs : History) → prepare_result cs cmd ≡ ready (some n) (c ∷ rest))
        → ((cs : History) → prepare_result cs (c ∷ rest) ≡ ready (some m) [])
        → ((cs : History) → exec_error cs begin_text ≡ none)
        → (Main.exec true (plain flat cmd none fuel) nullvalue objv s).0 ≡ endless
    unfolding Main.exec exec_open first_statement prepare_first from_first loop
    exec-two_statements flat cmd zero nullvalue objv n c rest s p p' b = refl
    exec-two_statements flat cmd (suc f) nullvalue objv n c rest s p p' b =
        let null = Option.map string nullvalue in
        let q = plain flat cmd null (suc f) in
        let cleared = record (clear_result s).1 {
          nullvalue = some (null_of q nullvalue s.defnullvalue);
        } in
        let s' = record cleared { calls = prepare cmd ∷ cleared.calls } in
        rw (p cleared.calls, round-first flat cmd null f n c rest objv s' p' b)
          (loop-stuck f flat cmd null (suc f) objv
            (round q (start (some n) (c ∷ rest) false no_entry objv) s').1)
