-- ===== src/Sqlite/Statement/Text.antt =====
-- The statements of the object commands as SQL, written down apart from the buffers.
use tcl_dbi.Base.{Option, none, some, List, [], ◌∷◌, ◌++◌, map}
use tcl_dbi.Memory.{Bytes, codes}
use tcl_dbi.Params.Text.{value_text}
use tcl_dbi.Sqlite3.Statement.Text.{ident, join, columns}

abbrev pub on_id : Bytes → Bytes
on_id id = codes " where \"id\" = '" ++ (id ++ codes "'")

abbrev pub assigned : Option Bytes → Bytes × Bytes → Bytes
assigned null (f, v) = ident f ++ (codes " = " ++ value_text null v)

abbrev pub set_text : Bytes → Bytes → Option Bytes → List (Bytes × Bytes) → Bytes
set_text table id null fvs =
    codes "update "
    ++ (ident table ++ (codes " set " ++ (join (codes ", ") (map (assigned null) fvs) ++ on_id id)))

-- The columns of an insert with their values; the id has quotes round it and nothing more.
abbrev pub names_of : Option Bytes → List (Bytes × Bytes) → List Bytes
names_of none fvs = map (λ fv. ident fv.0) fvs
names_of (some id) fvs = map (λ fv. ident fv.0) fvs ++ ident (codes "id") ∷ []

abbrev pub values_of : Option Bytes → Option Bytes → List (Bytes × Bytes) → List Bytes
values_of none null fvs = map (λ fv. value_text null fv.1) fvs
values_of (some id) null fvs =
    map (λ fv. value_text null fv.1) fvs ++ (codes "'" ++ (id ++ codes "'")) ∷ []

abbrev pub insert_text : Bytes → Option Bytes → Option Bytes → List (Bytes × Bytes) → Bytes
insert_text table id null fvs =
    codes "insert into "
    ++ (ident table
        ++ (codes " ("
            ++ (join (codes ",") (names_of id fvs)
                ++ (codes ") values ("
                    ++ (join (codes ",") (values_of id null fvs) ++ codes ")")))))

abbrev pub select_text : Bytes → Bytes → List Bytes → Bytes
select_text table id fs =
    codes "select " ++ (columns fs ++ (codes " from " ++ (ident table ++ on_id id)))

abbrev pub unset_text : Bytes → Bytes → List Bytes → Bytes
unset_text table id fs =
    codes "update "
    ++ (ident table
        ++ (codes " set "
            ++ (join (codes ", ") (map (λ f. ident f ++ codes " = NULL") fs) ++ on_id id)))

abbrev pub delete_text : Bytes → Bytes → Bytes
delete_text table id = codes "delete from " ++ (ident table ++ on_id id)
