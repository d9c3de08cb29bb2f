-- ===== src/Mysql/Fetch/Tests.antt =====
-- fetch at concrete arguments.
use tcl_dbi.Base.{◌≡◌, refl, true, none, some, [], ◌∷◌}
use tcl_dbi.Base.Int.{negsuc}
use tcl_dbi.Memory.{codes}
use tcl_dbi.Sqlite.Tests.{tcl}
use tcl_dbi.Mysql.Rows.{other, get_one, fetch_row, string}
use tcl_dbi.Mysql.Fetch.{Result, Session, fetch, fetch_line, deliver, line}
use tcl_dbi.Mysql.Fetch.Aligned.{fetch-InStep, InStep}

abbrev result : Result
result = record {
  fields = (codes "a", other) ∷ [];
  rows = (some (codes "x") ∷ []) ∷ (some (codes "y") ∷ []) ∷ [];
}

-- The first row has been read.
abbrev first : Session
first = record {
  result = some result;
  place = 1;
  row = some (some (codes "x") ∷ []);
  tuple = some 0;
}

fetch-InStep_example :
    InStep result (fetch ⦃tcl = tcl⦄ (λ s. true) [] first).1
    × ((fetch_line ⦃tcl = tcl⦄
          (λ s. true)
          (record { option = 0; null_value = none; ituple = none; ifield = negsuc 0 })
          result
          first).0
        ≡ line (string (codes "y") ∷ []))
unfolding deliver fetch_row get_one
fetch-InStep_example =
    fetch-InStep ⦃tcl = tcl⦄ (λ s. true) result []
      (record { option = 0; null_value = none; ituple = none; ifield = negsuc 0 }) first
      (record { held = refl; behind = refl; current = refl })
