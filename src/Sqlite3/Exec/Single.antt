-- ===== src/Sqlite3/Exec/Single.antt =====
-- exec of one statement that is neither cached nor fetched from later: its result and its calls.
use tcl_dbi.Base.{
  ℕ, zero, suc, ◌≤◌, ◌≡◌, ◌≢◌, refl, ◌∙◌, ap, Bool, true, false, Option, none, some, List, [], ◌∷◌,
  ◌++◌, map, append-nil, append_assoc, arith, length, take, drop, le→ltb, ◌⊎◌, inl, inr,
}
use mathlib.Core.Option
use tcl_dbi.Base.State.{pure, ◌>>◌}
use tcl_dbi.Memory.{Bytes}
use tcl_dbi.Sqlite3.Host.{Host, Stmt, StepCode, row, done, ready, prepare, step, finalize}
use tcl_dbi.Sqlite3.Session.{Session, Pending, call, clear_result, clear_pending, clear_each}
use tcl_dbi.Sqlite3.Row.{get_row}
use tcl_dbi.Sqlite3.Object.Common.{bind_each, run_step}
use tcl_dbi.Sqlite3.Exec.{
  Executed, ok, last, Round, Request, Rows, rows, Run, add_row, fetch_rows, prepare_first, no_entry,
}
use tcl_dbi.Sqlite3.Exec.Main.{
  null_of, start, loop, next_round, exec_open, first_statement, from_first, keep, with_rows,
  with_columns, by_code, report, after_loop, see_next, store_entry, begin, bind_arguments,
  run_statement, ran, round, exec,
}

module _ ⦃host : Host⦄ where
  open host use {
    Obj, string, new_list, prepare_result, step_result, parameter_count, column_names,
    column_values,
  }

  -- What SQLite gives from a session on, where the last step answered `code`: the lines of values up
  -- to SQLITE_DONE, and the session after it.
  pub data Lines (stmt : Stmt)
      : Session Obj → StepCode → List (List Obj) → Session Obj → Type 0 where
    at_end : {s : Session Obj} → Lines stmt s done [] s
    at_line :
        {s t : Session Obj} {line : List Obj} {lines : List (List Obj)}
        → get_row s.nullvalue (column_values s.calls stmt) ≡ some line
        → Lines stmt (call (step stmt) s).1 (step_result s.calls stmt) lines t
        → Lines stmt s row (line ∷ lines) t

  abbrev pub joined : List (List Obj) → List Obj
  joined [] = []
  joined (l ∷ ls) = l ++ joined ls

  -- the result by the option -flat
  abbrev pub value_of : Bool → List (List Obj) → List Obj
  value_of true lines = joined lines
  value_of false lines = map new_list lines

  add_row_lem :
      (flat : Bool) (acc line : List Obj) (lines : List (List Obj))
      → add_row flat acc line ++ value_of flat lines ≡ acc ++ value_of flat (line ∷ lines)
  add_row_lem true acc line lines = append_assoc acc line (joined lines)
  add_row_lem false acc line lines = append_assoc acc (new_list line ∷ []) (map new_list lines)

  pub fetch_rows-Lines :
      {stmt : Stmt} (f : ℕ) (flat : Bool) {code : StepCode} {lines : List (List Obj)}
      (acc : List Obj) {s t : Session Obj}
      → Lines stmt s code lines t
      → length lines ≤ f
      → fetch_rows f flat stmt code acc s ≡ (rows (acc ++ value_of flat lines), t)
  unfolding fetch_rows
  fetch_rows-Lines f true acc at_end h = rw append-nil refl
  fetch_rows-Lines f false acc at_end h = rw append-nil refl
  fetch_rows-Lines zero flat acc (at_line e rest) h = absurd (omega arith)
  fetch_rows-Lines (suc f) flat {lines = l ∷ ls} acc {t = t} (at_line e rest) h = rw e (
      fetch_rows-Lines f flat (add_row flat acc l) rest (omega arith)
      ∙ ap (λ x. (rows x, t)) (add_row_lem flat acc l ls))

  -- the options and the command
  abbrev pub plain : Bool → Bytes → Option Bytes → ℕ → Request
  plain flat cmd null fuel = record {
    use_fetch = false;
    flat = flat;
    cache = false;
    cmd = cmd;
    null = null;
    fuel = fuel;
  }

  -- the session once the pending result is cleared, and once the statement is prepared
  abbrev pub cleared : Option Obj → Session Obj → Session Obj
  cleared nullvalue s = record (clear_result s).1 {
    nullvalue = some (Option.get_or nullvalue s.defnullvalue);
  }

  abbrev pub prepared : Bytes → Option Obj → Session Obj → Session Obj
  prepared cmd nullvalue s = (call (prepare cmd) (cleared nullvalue s)).1

  with_columns-Lines :
      (q : Request) (code : StepCode) (r : Run Obj) (names : List Bytes) {lines : List (List Obj)}
      {s t : Session Obj}
      → names ≢ []
      → Lines r.stmt s code lines t
      → length lines ≤ q.fuel
      → with_columns q code r names s
        ≡ (clear_result >> pure (ok (some (new_list (value_of q.flat lines))))) t
  with_columns-Lines q code r [] n l h = absurd (n refl)
  with_columns-Lines q code r (name ∷ names) n l h =
      ap (λ (x : Rows Obj × Session Obj). with_rows q r x.0 x.1)
        (fetch_rows-Lines q.fuel q.flat [] l h)

  by_code-Lines :
      (flat : Bool) (cmd : Bytes) (null : Option Bytes) (fuel : ℕ) (r : Run Obj) (s : Session Obj)
      {code : StepCode} {lines : List (List Obj)} {t : Session Obj}
      → column_names s.calls r.stmt ≢ []
      → Lines r.stmt (keep (plain flat cmd null fuel) r s).1 code lines t
      → length lines ≤ fuel
      → by_code (plain flat cmd null fuel) code r s
        ≡ (clear_result >> pure (ok (some (new_list (value_of flat lines))))) t
  unfolding by_code report
  by_code-Lines flat cmd null fuel r s n at_end h =
      with_columns-Lines (plain flat cmd null fuel) done r (column_names s.calls r.stmt) n at_end h
  by_code-Lines flat cmd null fuel r s n (at_line l rest) h =
      with_columns-Lines (plain flat cmd null fuel) row r (column_names s.calls r.stmt) n
        (at_line l rest) h

  -- The values that the statement takes, what is left of the arguments, and the session once those
  -- are bound and the first step is made.
  abbrev taken : Stmt → List Obj → Session Obj → List Obj
  taken stmt objv s = take (parameter_count s.calls stmt) objv

  abbrev pub after_bind : Stmt → Option Bytes → List Obj → Session Obj → Session Obj
  after_bind stmt null objv s = (bind_each stmt 1 null (taken stmt objv s) s).1

  abbrev pub left_over : Stmt → List Obj → Session Obj → Run Obj
  left_over stmt objv s = record (start stmt [] false no_entry objv) {
    first = false;
    objv = drop (parameter_count s.calls stmt) objv;
  }

  -- a row, or none
  abbrev pub Reads : StepCode → Type 0
  Reads code = (code ≡ row) ⊎ (code ≡ done)

  Lines-Reads :
      {stmt : Stmt} {code : StepCode} {s t : Session Obj} {lines : List (List Obj)}
      → Lines stmt s code lines t
      → Reads code
  Lines-Reads at_end = inr refl
  Lines-Reads (at_line e rest) = inl refl

  ran-Reads :
      (q : Request) (stmt : Stmt) (objv : List Obj) (s : Session Obj) (code : StepCode)
      (v : Session Obj)
      → Reads code
      → ran q (left_over stmt objv s) code v ≡ (last code (left_over stmt objv s), v)
  ran-Reads q stmt objv s code v (inl e) = rw e refl
  ran-Reads q stmt objv s code v (inr e) = rw e refl

  -- The only round ends with the code of the first step, where that is a row or the end.
  pub round-only :
      (flat : Bool) (cmd : Bytes) (null : Option Bytes) (fuel : ℕ) (stmt : Stmt) (objv : List Obj)
      (s : Session Obj)
      → parameter_count s.calls stmt ≤ length objv
      → Reads (step_result (after_bind stmt null objv s).calls stmt)
      → round (plain flat cmd null fuel) (start stmt [] false no_entry objv) s ≡ (
        last (step_result (after_bind stmt null objv s).calls stmt) (left_over stmt objv s),
        (run_step stmt (after_bind stmt null objv s)).1,
      )
  unfolding round see_next store_entry begin bind_arguments run_statement
  round-only flat cmd null fuel stmt objv s n l =
      rw (le→ltb (length objv) (parameter_count s.calls stmt) n) (
        ran-Reads (plain flat cmd null fuel) stmt objv s
          (step_result (after_bind stmt null objv s).calls stmt)
          (run_step stmt (after_bind stmt null objv s)).1 l)

  -- The session when the rows are read: bound, one step made, and the statement kept.
  abbrev pub running : Bytes → Option Obj → List Obj → Stmt → Session Obj → Session Obj
  running cmd nullvalue objv stmt s =
      let b = after_bind stmt (Option.map string nullvalue) objv (prepared cmd nullvalue s) in
      record b { calls = step stmt ∷ b.calls; own = record b.own { stmt = stmt; cached = false } }

  Lines-own :
      {stmt : Stmt} {s t : Session Obj} {code : StepCode} {lines : List (List Obj)}
      → Lines stmt s code lines t
      → t.own ≡ s.own
  Lines-own at_end = refl
  Lines-own (at_line e rest) = Lines-own rest

  pub clear-finalizes :
      (t : Session Obj) (n : ℕ)
      → t.own.stmt ≡ some n
      → t.own.cached ≡ false
      → (clear_result t).1.calls ≡ finalize (some n) ∷ (clear_each t.clones t.calls).1
  unfolding clear_result clear_pending
  clear-finalizes t n e f = rw (e, f) refl

  pub null_of_lem :
      (q : Request) (nullvalue : Option Obj) (default : Obj)
      → q.use_fetch ≡ false
      → null_of q nullvalue default ≡ Option.get_or nullvalue default
  null_of_lem q none default e = refl
  null_of_lem q (some null) default e = rw e refl

  pub exec-first :
      (flat : Bool) (cmd : Bytes) (fuel : ℕ) (nullvalue : Option Obj) (objv : List Obj) (n : ℕ)
      (s : Session Obj)
      → prepare_result (cleared nullvalue s).calls cmd ≡ ready (some n) []
      → exec true (plain flat cmd none (suc fuel)) nullvalue objv s
        ≡ loop
            (suc fuel)
            (plain flat cmd (Option.map string nullvalue) (suc fuel))
            (start (some n) [] false no_entry objv)
            (prepared cmd nullvalue s)
  unfolding exec exec_open first_statement prepare_first from_first
  exec-first flat cmd fuel nullvalue objv n s p =
      rw
        (
          null_of_lem (plain flat cmd (Option.map string nullvalue) (suc fuel)) nullvalue
              s.defnullvalue refl,
          p,
        )
        refl

  loop-Lines :
      (flat : Bool) (cmd : Bytes) (null : Option Bytes) (f fuel : ℕ) (objv : List Obj) (n : ℕ)
      (s t : Session Obj) (lines : List (List Obj))
      → parameter_count s.calls (some n) ≤ length objv
      → column_names (run_step (some n) (after_bind (some n) null objv s)).1.calls (some n) ≢ []
      → Lines
          (some n)
          (keep
            (plain flat cmd null fuel)
            (left_over (some n) objv s)
            (run_step (some n) (after_bind (some n) null objv s)).1).1
          (step_result (after_bind (some n) null objv s).calls (some n))
          lines
          t
      → length lines ≤ fuel
      → loop (suc f) (plain flat cmd null fuel) (start (some n) [] false no_entry objv) s
        ≡ (clear_result >> pure (ok (some (new_list (value_of flat lines))))) t
  unfolding loop after_loop
  loop-Lines flat cmd null f fuel objv n s t lines c k l h =
      ap
        (λ (x : Round Obj × Session Obj).
          next_round (plain flat cmd null fuel) (loop f (plain flat cmd null fuel)) x.0 x.1)
        (round-only flat cmd null fuel (some n) objv s c (Lines-Reads l))
      ∙ by_code-Lines flat cmd null fuel (left_over (some n) objv s)
          (run_step (some n) (after_bind (some n) null objv s)).1 k l h

  -- `exec` of a text that SQLite prepares as one statement with nothing behind it, with enough
  -- arguments for its parameters: if the statement has columns and SQLite gives the lines `lines`
  -- and then SQLITE_DONE, the result is these lines in their order (their values one after the
  -- other with -flat), whatever was pending before, and the last call made is that which finalizes
  -- the statement.
  pub exec-Lines :
      (flat : Bool) (cmd : Bytes) (fuel : ℕ) (nullvalue : Option Obj) (objv : List Obj) (n : ℕ)
      (s t : Session Obj) (lines : List (List Obj))
      → prepare_result (cleared nullvalue s).calls cmd ≡ ready (some n) []
      → parameter_count (prepared cmd nullvalue s).calls (some n) ≤ length objv
      → column_names (running cmd nullvalue objv (some n) s).calls (some n) ≢ []
      → Lines
          (some n)
          (running cmd nullvalue objv (some n) s)
          (step_result
            (after_bind
              (some n)
              (Option.map string nullvalue)
              objv
              (prepared cmd nullvalue s)).calls
            (some n))
          lines
          t
      → length lines ≤ fuel
      → ((exec true (plain flat cmd none (suc fuel)) nullvalue objv s).0
          ≡ ok (some (new_list (value_of flat lines))))
        × ((exec true (plain flat cmd none (suc fuel)) nullvalue objv s).1.calls
            ≡ finalize (some n) ∷ (clear_each t.clones t.calls).1)
  exec-Lines flat cmd fuel nullvalue objv n s t lines p c k l h =
      let run =
        exec-first flat cmd fuel nullvalue objv n s p
        ∙ loop-Lines flat cmd (Option.map string nullvalue) fuel (suc fuel) objv n
            (prepared cmd nullvalue s) t lines c k l (omega arith) in
      (
        ap (λ (x : Executed Obj × Session Obj). x.0) run,
        ap (λ (x : Executed Obj × Session Obj). x.1.calls) run
            ∙ clear-finalizes t n (ap (λ (p : Pending). p.stmt) (Lines-own l))
                (ap (λ (p : Pending). p.cached) (Lines-own l)),
      )
