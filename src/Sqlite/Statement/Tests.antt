-- ===== src/Sqlite/Statement/Tests.antt =====
-- Statements of the object commands.
use tcl_dbi.Base.{◌≡◌, refl, none, some, [], ◌∷◌}
use tcl_dbi.Memory.{codes, c_string, alloc_int, sprintf}
use tcl_dbi.Memory.Cursor.{emit}
use tcl_dbi.Sqlite.Statement.{set_sql, insert_sql, unset_sql, count_single_quote}

set_two :
    set_sql 1 39
      (codes "t")
      (codes "5")
      (some (codes "?"))
      (codes "a", codes "it's")
      ((codes "b", codes "?") ∷ [])
    ≡ some (codes "update \"t\" set \"a\" = 'it''s', \"b\" = NULL where \"id\" = '5'")
unfolding set_sql emit sprintf c_string alloc_int count_single_quote
set_two = refl

insert_one :
    insert_sql 1 39 (codes "t") (some (codes "5")) none (codes "a", codes "x") []
    ≡ some (codes "insert into \"t\" (\"a\",\"id\") values ('x','5')")
unfolding insert_sql emit sprintf c_string alloc_int count_single_quote
insert_one = refl

-- The second field is passed over.
unset_two :
    unset_sql 1 (codes "t") (codes "5") (codes "a") (codes "b" ∷ [])
    ≡ some (codes "update \"t\" set \"a\" = NULL where \"id\" = '5'")
unfolding unset_sql emit sprintf c_string alloc_int
unset_two = refl

-- With four fields the text does not fit.
unset_four :
    unset_sql 1 (codes "t") (codes "5") (codes "a") (codes "b" ∷ codes "c" ∷ codes "d" ∷ []) ≡ none
unfolding unset_sql emit sprintf c_string alloc_int
unset_four = refl
