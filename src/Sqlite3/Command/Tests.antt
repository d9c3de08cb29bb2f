-- ===== src/Sqlite3/Command/Tests.antt =====
-- Commands with options on a small Tcl and SQLite.
use tcl_dbi.Base.{◌≡◌, refl, true, false, some, [], ◌∷◌}
use tcl_dbi.Memory.{Bytes, codes, c_string}
use tcl_dbi.Sqlite3.Tests.{sample, fresh, Words}
use tcl_dbi.Sqlite3.Command.{answered, read_beyond, exec_command, run_exec}
use tcl_dbi.Sqlite3.Command.Options.{flat_on, null_is, exec_command-options}

abbrev word : Bytes → Words
word b = b ∷ []

abbrev select : Words
select = word (codes "select")

exec_command-options_example :
    exec_command ⦃host = sample 2⦄ 5
      (word (codes "-flat")
        ∷ word (codes "-nullvalue")
        ∷ word (codes "NULL")
        ∷ select
        ∷ word (codes "x")
        ∷ word (codes "y")
        ∷ [])
      fresh
    ≡ (let ran =
          run_exec ⦃host = sample 2⦄ 5
            (record { use_fetch = false; flat = true; cache = false })
            (some (word (codes "NULL")))
            select
            (word (codes "x") ∷ word (codes "y") ∷ [])
            fresh in
        (answered ran.0, ran.1))
unfolding c_string
exec_command-options_example =
    exec_command-options ⦃host = sample 2⦄ 5
      (flat_on (word (codes "-flat"))
        ∷ null_is (word (codes "-nullvalue")) (word (codes "NULL"))
        ∷ [])
      select (word (codes "x") ∷ word (codes "y") ∷ []) fresh ((refl, refl), ((refl, refl), tt))
      refl

-- Options without a command: the place behind the arguments is read.
no_command : (exec_command ⦃host = sample 2⦄ 5 (word (codes "-flat") ∷ []) fresh).0 ≡ read_beyond
unfolding exec_command c_string
no_command = refl
