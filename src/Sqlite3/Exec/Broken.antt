-- ===== src/Sqlite3/Exec/Broken.antt =====
-- exec of one statement whose rows end with an error.
use tcl_dbi.Base.{
  ℕ, zero, suc, ◌≤◌, ◌≡◌, ◌≢◌, refl, ◌∙◌, ap, Bool, true, false, Option, none, some, List, [], ◌∷◌,
  arith, length, inl,
}
use mathlib.Core.Option
use tcl_dbi.Memory.{Bytes}
use tcl_dbi.Sqlite3.Host.{
  Host, Stmt, StepCode, row, done, okay, other, failure, misuse, ready, step, finalize,
}
use tcl_dbi.Sqlite3.Session.{Session, Pending, call, clear_result, clear_pending, clear_each}
use tcl_dbi.Sqlite3.Row.{get_row}
use tcl_dbi.Sqlite3.Object.Common.{run_step}
use tcl_dbi.Sqlite3.Exec.{
  Executed, failed, reading_rows, Request, Rows, stopped, Round, Run, add_row, exec_error_label,
  fetch_rows, no_entry,
}
use tcl_dbi.Sqlite3.Exec.Main.{
  start, loop, next_round, keep, with_rows, with_columns, by_code, report, after_loop, exec,
}
use tcl_dbi.Sqlite3.Exec.Single.{
  plain, cleared, prepared, running, after_bind, left_over, round-only, exec-first,
}

module _ ⦃host : Host⦄ where
  open host use {
    Obj, string, prepare_result, step_result, parameter_count, column_names, column_values,
  }

  -- From a session on, where the last step answered `code`: at most that many rows, and then a step
  -- that answers neither a row nor SQLITE_DONE.
  pub data Breaks (stmt : Stmt) : ℕ → Session Obj → StepCode → Session Obj → Type 0 where
    at_error :
        {code : StepCode} {s : Session Obj} → code ≢ row → code ≢ done → Breaks stmt 0 s code s
    past_row :
        {k : ℕ} {s t : Session Obj} {line : List Obj}
        → get_row s.nullvalue (column_values s.calls stmt) ≡ some line
        → Breaks stmt k (call (step stmt) s).1 (step_result s.calls stmt) t
        → Breaks stmt (suc k) s row t

  stops_at :
      (f : ℕ) (flat : Bool) (stmt : Stmt) (code : StepCode) (acc : List Obj) (s : Session Obj)
      → code ≢ row
      → code ≢ done
      → fetch_rows f flat stmt code acc s ≡ (stopped, s)
  unfolding fetch_rows
  stops_at f flat stmt row acc s h g = absurd (h refl)
  stops_at f flat stmt done acc s h g = absurd (g refl)
  stops_at f flat stmt okay acc s h g = refl
  stops_at f flat stmt failure acc s h g = refl
  stops_at f flat stmt misuse acc s h g = refl
  stops_at f flat stmt (other c) acc s h g = refl

  fetch_rows-Breaks :
      {stmt : Stmt} (f : ℕ) (flat : Bool) {k : ℕ} {code : StepCode} (acc : List Obj)
      {s t : Session Obj}
      → Breaks stmt k s code t
      → k ≤ f
      → fetch_rows f flat stmt code acc s ≡ (stopped, t)
  unfolding fetch_rows
  fetch_rows-Breaks {stmt} f flat {code = code} acc {s} (at_error h g) b =
      stops_at f flat stmt code acc s h g
  fetch_rows-Breaks zero flat acc (past_row e rest) b = absurd (omega arith)
  fetch_rows-Breaks (suc f) flat acc (past_row {line = l} e rest) b =
      rw e (fetch_rows-Breaks f flat (add_row flat acc l) rest (omega arith))

  with_columns-Breaks :
      (q : Request) (code : StepCode) (r : Run Obj) (names : List Bytes) {k : ℕ} {s t : Session Obj}
      → names ≢ []
      → Breaks r.stmt k s code t
      → k ≤ q.fuel
      → with_columns q code r names s ≡ exec_error_label q r reading_rows t
  with_columns-Breaks q code r [] n l h = absurd (n refl)
  with_columns-Breaks q code r (name ∷ names) n l h =
      ap (λ (x : Rows Obj × Session Obj). with_rows q r x.0 x.1)
        (fetch_rows-Breaks q.fuel q.flat [] l h)

  loop-Breaks :
      (flat : Bool) (cmd : Bytes) (null : Option Bytes) (f fuel : ℕ) (objv : List Obj) (n k : ℕ)
      (s t : Session Obj)
      → parameter_count s.calls (some n) ≤ length objv
      → column_names (run_step (some n) (after_bind (some n) null objv s)).1.calls (some n) ≢ []
      → step_result (after_bind (some n) null objv s).calls (some n) ≡ row
      → Breaks
          (some n)
          k
          (keep
            (plain flat cmd null fuel)
            (left_over (some n) objv s)
            (run_step (some n) (after_bind (some n) null objv s)).1).1
          row
          t
      → k ≤ fuel
      → loop (suc f) (plain flat cmd null fuel) (start (some n) [] false no_entry objv) s
        ≡ exec_error_label (plain flat cmd null fuel) (left_over (some n) objv s) reading_rows t
  unfolding loop after_loop by_code report
  loop-Breaks flat cmd null f fuel objv n k s t c names e l h =
      let q = plain flat cmd null fuel in
      let after = run_step (some n) (after_bind (some n) null objv s) in
      ap (λ (x : Round Obj × Session Obj). next_round q (loop f q) x.0 x.1)
        (round-only flat cmd null fuel (some n) objv s c (inl e))
      ∙ ap (λ code. after_loop q code (left_over (some n) objv s) after.1) e
      ∙ with_columns-Breaks q row (left_over (some n) objv s) (column_names after.1.calls (some n))
          names l h

  Breaks-own :
      {stmt : Stmt} {k : ℕ} {s t : Session Obj} {code : StepCode}
      → Breaks stmt k s code t
      → t.own ≡ s.own
  Breaks-own (at_error h g) = refl
  Breaks-own (past_row e rest) = Breaks-own rest

  label-twice :
      (q : Request) (n : ℕ) (objv : List Obj) (s t : Session Obj)
      → q.cache ≡ false
      → t.own.stmt ≡ some n
      → t.own.cached ≡ false
      → ((exec_error_label q (left_over (some n) objv s) reading_rows t).0 ≡ failed reading_rows)
        × ((exec_error_label q (left_over (some n) objv s) reading_rows t).1.calls
            ≡ finalize (some n) ∷ (clear_each t.clones (finalize (some n) ∷ t.calls)).1)
  unfolding exec_error_label clear_result clear_pending
  label-twice q n objv s t c e f = rw (c, e, f) (refl, refl)

  -- Where a step after the first row of a statement that is not cached answers an error, exec reports
  -- it and finalizes the statement twice: at the label for errors, and again as the pending result.
  pub exec-Breaks :
      (flat : Bool) (cmd : Bytes) (fuel : ℕ) (nullvalue : Option Obj) (objv : List Obj) (n k : ℕ)
      (s t : Session Obj)
      → prepare_result (cleared nullvalue s).calls cmd ≡ ready (some n) []
      → parameter_count (prepared cmd nullvalue s).calls (some n) ≤ length objv
      → column_names (running cmd nullvalue objv (some n) s).calls (some n) ≢ []
      → step_result
          (after_bind (some n) (Option.map string nullvalue) objv (prepared cmd nullvalue s)).calls
          (some n)
        ≡ row
      → Breaks (some n) k (running cmd nullvalue objv (some n) s) row t
      → k ≤ fuel
      → ((exec true (plain flat cmd none (suc fuel)) nullvalue objv s).0 ≡ failed reading_rows)
        × ((exec true (plain flat cmd none (suc fuel)) nullvalue objv s).1.calls
            ≡ finalize (some n) ∷ (clear_each t.clones (finalize (some n) ∷ t.calls)).1)
  exec-Breaks flat cmd fuel nullvalue objv n k s t p c names e l h =
      let q = plain flat cmd (Option.map string nullvalue) (suc fuel) in
      let run =
        exec-first flat cmd fuel nullvalue objv n s p
        ∙ loop-Breaks flat cmd q.null fuel (suc fuel) objv n k (prepared cmd nullvalue s) t c names
            e l (omega arith) in
      let ended =
        label-twice q n objv (prepared cmd nullvalue s) t refl
          (ap (λ (p : Pending). p.stmt) (Breaks-own l))
          (ap (λ (p : Pending). p.cached) (Breaks-own l)) in
      (
        ap (λ (x : Executed Obj × Session Obj). x.0) run ∙ ended.0,
        ap (λ (x : Executed Obj × Session Obj). x.1.calls) run ∙ ended.1,
      )
