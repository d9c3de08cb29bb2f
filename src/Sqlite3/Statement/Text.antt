-- ===== src/Sqlite3/Statement/Text.antt =====
-- The statements as SQL, written down apart from the buffers: a reader's view of what
-- get, insert, set, unset and delete send to the database.
use tcl_dbi.Base.{Option, none, some, List, [], ◌∷◌, ◌++◌, map}
use tcl_dbi.Memory.{Bytes, codes}

-- An SQL identifier in double quotes.
abbrev pub ident : Bytes → Bytes
ident s = b'"' ∷ (s ++ b'"' ∷ [])

-- The items with `sep` in front of each.
unfoldable pub each : Bytes → List Bytes → Bytes
each sep [] = []
each sep (s ∷ ss) = sep ++ (s ++ each sep ss)

-- The items with `sep` between them.
unfoldable pub join : Bytes → List Bytes → Bytes
unfolding each
join sep [] = []
join sep (s ∷ ss) = s ++ each sep ss

abbrev pub on_id : Bytes
on_id = codes " where \"id\" = ?"

abbrev pub columns : List Bytes → Bytes
columns [] = codes "*"
columns (f ∷ fs) = join (codes ",") (map ident (f ∷ fs))

abbrev pub select_text : Bytes → List Bytes → Bytes
select_text table fs = codes "select " ++ (columns fs ++ (codes " from " ++ (ident table ++ on_id)))

abbrev pub update_text : Bytes → Bytes → List Bytes → Bytes
update_text value table fs =
    codes "update "
    ++ (ident table
        ++ (codes " set " ++ (join (codes ", ") (map (λ f. ident f ++ value) fs) ++ on_id)))

abbrev pub delete_text : Bytes → Bytes
delete_text table = codes "delete from " ++ (ident table ++ on_id)

abbrev pub with_id : Option Bytes → List Bytes → List Bytes
with_id none fs = fs
with_id (some _) fs = fs ++ codes "id" ∷ []

-- One placeholder for each of the columns.
abbrev pub insert_text : Bytes → List Bytes → Bytes
insert_text table fs =
    codes "insert into "
    ++ (ident table
        ++ (codes " ("
            ++ (join (codes ",") (map ident fs)
                ++ (codes ") values ("
                    ++ (join (codes ",") (map (λ _. codes "?") fs) ++ codes ")")))))
