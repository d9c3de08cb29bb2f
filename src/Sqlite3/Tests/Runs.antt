-- ===== src/Sqlite3/Tests/Runs.antt =====
-- Runs of the handlers of sqlite3/generic/sqlite.c on the sample, and the theorems at arguments.
use tcl_dbi.Base.{◌≡◌, ◌≢◌, refl, arith, ◌⊎◌, none, some, List, [], ◌∷◌}
use tcl_dbi.Memory.{Bytes, codes, sprintf, c_string, alloc_int, put_bytes}
use tcl_dbi.Memory.Cursor.{emit}
use tcl_dbi.Sqlite3.Session.{prepare_cached}
use tcl_dbi.Sqlite3.Clean.{Clean}
use tcl_dbi.Sqlite3.Statement.{set_sql, insert_sql, sum_lengths_min2, emit_each}
use tcl_dbi.Sqlite3.Statement.Text.{join}
use tcl_dbi.Sqlite3.Statement.Update.{set_sql-update_text}
use tcl_dbi.Sqlite3.Statement.Insert.{insert_sql-insert_text}
use tcl_dbi.Sqlite3.Object.Common.{fault, split_object, ok, bind_each, with_fields, with_sql}
use tcl_dbi.Sqlite3.Object.Remove.{unset, delete}
use tcl_dbi.Sqlite3.Object.Store.{insert, set}
use tcl_dbi.Sqlite3.Object.Read.{get}
use tcl_dbi.Sqlite3.Object.Clean.{handlers-Clean}
use tcl_dbi.Sqlite3.Object.Safe.{writers_stay_inside}
use tcl_dbi.Sqlite3.Fetch.{fetch, position, error, database_error, arrived, out_of_position}
use tcl_dbi.Sqlite3.Fetch.Position.{Aligned, fetch-Aligned}
use tcl_dbi.Sqlite3.Tests.{Words, sample, sample-NoNul, fresh, pending}

abbrev person : Bytes
person = codes "person"

abbrev john : Words
john = person ∷ codes "1" ∷ []

abbrev word : Bytes → Words
word w = w ∷ []

set_sql-update_text_example :
    set_sql 170 person (codes "1") (codes "name") (codes "age" ∷ [])
    ≡ some (codes "update \"person\" set \"name\" = ?, \"age\" = ? where \"id\" = ?")
unfolding join sum_lengths_min2
set_sql-update_text_example =
    set_sql-update_text 170 person (codes "1") (codes "name") (codes "age" ∷ []) refl refl
      (omega arith)

insert_sql-insert_text_example :
    insert_sql 170 person (some (codes "1")) (codes "name") (codes "age" ∷ [])
    ≡ some (codes "insert into \"person\" (\"name\",\"age\",\"id\") values (?,?,?)")
unfolding join sum_lengths_min2
insert_sql-insert_text_example =
    insert_sql-insert_text 170 person (some (codes "1")) (codes "name") (codes "age" ∷ []) refl refl
      (omega arith)

abbrev fields : List Words
fields = word (codes "name") ∷ word (codes "John") ∷ word (codes "id") ∷ word (codes "3") ∷ []

handlers-Clean_example :
    Clean 7 (get ⦃host = sample 0⦄ 170 john fields fresh).1.calls
    × Clean 7 (insert ⦃host = sample 0⦄ 170 john none none fields fresh).1.calls
    × Clean 7 (set ⦃host = sample 0⦄ 170 john none fields fresh).1.calls
    × Clean 7 (unset ⦃host = sample 0⦄ 170 john fields fresh).1.calls
    × Clean 7 (delete ⦃host = sample 0⦄ 170 john fresh).1.calls
handlers-Clean_example =
    handlers-Clean ⦃host = sample 0⦄ 7 170 john none none fields fresh (refl, refl)

writers_stay_inside_example :
    ((insert ⦃host = sample 0⦄ 170 john none none fields fresh).0 ≢ fault)
    × ((set ⦃host = sample 0⦄ 170 john none fields fresh).0 ≢ fault)
    × ((unset ⦃host = sample 0⦄ 170 john fields fresh).0 ≢ fault)
    × ((delete ⦃host = sample 0⦄ 170 john fresh).0 ≢ fault)
unfolding sum_lengths_min2 c_string split_object
writers_stay_inside_example =
    writers_stay_inside ⦃host = sample 0⦄ (sample-NoNul 0) 170 john none none fields fresh
      (omega arith)

insert-runs_with_id :
    (insert ⦃host = sample 0⦄ 170 (word person) (some (word (codes "9"))) none fields fresh).0
    ≡ ok (some (person ∷ codes "9" ∷ []))
unfolding insert with_fields with_sql insert_sql emit sprintf c_string alloc_int sum_lengths_min2
    emit_each put_bytes prepare_cached bind_each
insert-runs_with_id = refl

insert-runs :
    (insert ⦃host = sample 0⦄ 170 (word person) none none fields fresh).0
    ≡ ok (some (person ∷ codes "John" ∷ []))
unfolding insert with_fields with_sql insert_sql emit sprintf c_string alloc_int sum_lengths_min2
    emit_each put_bytes prepare_cached bind_each
insert-runs = refl

fetch-Aligned_example :
    ((fetch ⦃host = sample 3⦄ [] pending).0 ≡ error database_error)
    ⊎ Aligned 1 7 (fetch ⦃host = sample 3⦄ [] pending).1
fetch-Aligned_example = fetch-Aligned ⦃host = sample 3⦄ 1 7 [] pending (refl, refl)

position-runs : (position ⦃host = sample 3⦄ (some 2) pending).0 ≡ arrived
unfolding position
position-runs = refl

position-runs_out : (position ⦃host = sample 3⦄ (some 9) pending).0 ≡ out_of_position
unfolding position
position-runs_out = refl
