-- ===== src/Sqlite3/Exec/Tests.antt =====
-- Runs of exec, and its theorems, at concrete arguments.
use tcl_dbi.Base.{◌≡◌, ◌≢◌, refl, true, false, none, some, List, [], ◌∷◌, if◌then◌else◌, ltb, arith}
use tcl_dbi.Memory.{Bytes, codes, c_string}
use tcl_dbi.Sqlite3.Host.{
  Host, row, done, failure, Prepared, ready, prepare, step, finalize, bind, bind_text,
}
use tcl_dbi.Sqlite3.Session.{Session, clear_result, binding_of}
use tcl_dbi.Sqlite3.Row.{get_row}
use tcl_dbi.Sqlite3.Object.Common.{bind_each}
use tcl_dbi.Sqlite3.Tests.{sample, steps, fresh, Words, pending}
use tcl_dbi.Sqlite3.Exec.{
  ExecError, running_statement, look_ahead, Executed, ok, failed, endless, reading_rows,
  prepare_first, fetch_rows, exec_error_label,
}
use tcl_dbi.Sqlite3.Exec.Closed.{unended}
use tcl_dbi.Sqlite3.Exec.Main.{exec}
use tcl_dbi.Sqlite3.Exec.Single.{exec-Lines, at_end, at_line, plain}
use tcl_dbi.Sqlite3.Exec.Broken.{exec-Breaks, at_error, past_row}
use tcl_dbi.Sqlite3.Exec.Endless.{exec-no_statement, exec-two_statements}
use tcl_dbi.Sqlite3.Exec.Ended.{exec-ended}

abbrev select : Bytes
select = codes "select * from person where a = ? or b = ?"

abbrev values : List Words
values = (codes "x" ∷ []) ∷ (codes "y" ∷ []) ∷ []

-- Two rows of two values each.
selected :
    (exec ⦃host = sample 3⦄ true
      (plain ⦃host = sample 3⦄ false select none 4)
      none
      values
      pending).0
    ≡ ok (some (codes "int " ∷ codes "int " ∷ []))
unfolding exec prepare_first bind_each clear_result fetch_rows get_row
selected = refl

exec-Lines_example :
    ((exec ⦃host = sample 3⦄ true
        (plain ⦃host = sample 3⦄ false select none 4)
        none
        values
        pending).0
      ≡ ok (some (codes "int " ∷ codes "int " ∷ [])))
    × ((exec ⦃host = sample 3⦄ true
          (plain ⦃host = sample 3⦄ false select none 4)
          none
          values
          pending).1.calls
        ≡ finalize (some 7)
          ∷ step (some 7)
          ∷ step (some 7)
          ∷ step (some 7)
          ∷ bind (some 7) 2 (bind_text (codes "y"))
          ∷ bind (some 7) 1 (bind_text (codes "x"))
          ∷ prepare select
          ∷ finalize (some 7)
          ∷ step (some 7)
          ∷ [])
unfolding bind_each clear_result get_row binding_of c_string
exec-Lines_example =
    exec-Lines ⦃host = sample 3⦄ false select 3 none values 7 pending _
      (((codes "int" ∷ []) ∷ [] ∷ []) ∷ ((codes "int" ∷ []) ∷ [] ∷ []) ∷ []) refl (omega arith)
      (λ e. cc) (at_line refl (at_line refl at_end)) (omega arith)

-- A row, and then SQLITE_ERROR.
abbrev breaking : Host
breaking = record (sample 3) {
  step_result = λ calls s. if ltb (steps calls) 2 then row else failure;
}

exec-Breaks_example :
    ((exec ⦃host = breaking⦄ true
        (plain ⦃host = breaking⦄ false select none 4)
        none
        values
        pending).0
      ≡ failed reading_rows)
    × ((exec ⦃host = breaking⦄ true
          (plain ⦃host = breaking⦄ false select none 4)
          none
          values
          pending).1.calls
        ≡ finalize (some 7)
          ∷ finalize (some 7)
          ∷ step (some 7)
          ∷ step (some 7)
          ∷ bind (some 7) 2 (bind_text (codes "y"))
          ∷ bind (some 7) 1 (bind_text (codes "x"))
          ∷ prepare select
          ∷ finalize (some 7)
          ∷ step (some 7)
          ∷ [])
unfolding bind_each clear_result get_row binding_of c_string
exec-Breaks_example =
    exec-Breaks ⦃host = breaking⦄ false select 3 none values 7 1 pending _ refl (omega arith)
      (λ e. cc) refl (past_row refl (at_error (λ e. cc) (λ e. cc))) (omega arith)

-- No statement in any text.
abbrev blank : Host
blank = record (sample 3) { prepare_result = λ calls sql. ready none [] }

exec-no_statement_example :
    (exec ⦃host = blank⦄ true
      (plain ⦃host = blank⦄ false (codes "-- nothing") none 100)
      none
      []
      fresh).0
    ≡ endless
unfolding clear_result
exec-no_statement_example =
    exec-no_statement ⦃host = blank⦄ (plain ⦃host = blank⦄ false (codes "-- nothing") none 100) none
      [] fresh (λ cs. refl) (λ cs. refl) refl

-- A text of more than one byte has a first statement of one byte.
abbrev two_or_one : Bytes → Prepared
two_or_one (c ∷ d ∷ rest) = ready (some 1) (d ∷ rest)
two_or_one sql = ready (some 2) []

abbrev double : Host
double = record (sample 0) {
  prepare_result = λ calls sql. two_or_one sql;
  parameter_count = λ calls s. 0;
  step_result = λ calls s. done;
}

exec-two_statements_example :
    (exec ⦃host = double⦄ true (plain ⦃host = double⦄ false (codes "ab") none 100) none [] fresh).0
    ≡ endless
exec-two_statements_example =
    exec-two_statements ⦃host = double⦄ 2 (λ cs stmt. refl) (λ cs stmt e. cc) (λ cs stmt e. cc)
      false (codes "ab") 100 none [] 1 98 [] fresh (λ cs. refl) (λ cs. refl) (λ cs. refl)

-- An error in the second statement: the transaction of the first is rolled back.
abbrev second_fails : Host
second_fails = record double {
  step_result = λ calls s. if ltb (steps calls) 1 then done else failure;
}

abbrev failing_run : Executed Words × Session Words
failing_run =
    exec ⦃host = second_fails⦄ true (plain ⦃host = second_fails⦄ false (codes "ab") none 9) none []
      fresh

failing_run-failed : failing_run.0 ≡ failed running_statement
unfolding exec exec_error_label prepare_first look_ahead bind_each clear_result
failing_run-failed = refl

failed-returns : (e : ExecError) (o : Executed Words) → o ≡ failed e → o ≢ endless
failed-returns e o h k = cc

exec-ended_example : unended ⦃host = second_fails⦄ failing_run.1.calls ≡ false
exec-ended_example =
    exec-ended ⦃host = second_fails⦄ true (plain ⦃host = second_fails⦄ false (codes "ab") none 9)
      none [] fresh refl (failed-returns running_statement failing_run.0 failing_run-failed)
