-- ===== src/Mysql/Exec/Tests.antt =====
-- Runs of what dbi_Mysql_Exec of mysql/generic/mysql.c hands over, and the theorem at arguments.
use tcl_dbi.Base.{◌≡◌, refl, none, List, [], ◌∷◌}
use tcl_dbi.Memory.{codes}
use tcl_dbi.Mysql.Quotes.{remove_quotes}
use tcl_dbi.Mysql.Quotes.Pieces.{Piece, byte, name_quote}
use tcl_dbi.Mysql.Exec.{mysql_query, by_text, several, refused}

-- `"a"=?`
abbrev pieces : List Piece
pieces = name_quote ∷ byte b'a' ∷ name_quote ∷ byte b'=' ∷ byte b'?' ∷ []

mysql_query-runs_several : mysql_query 170 (codes "a;b") none [] ≡ several (codes "a;b")
unfolding mysql_query by_text remove_quotes
mysql_query-runs_several = refl

mysql_query-runs_refused : mysql_query 170 (codes "a;b") none (codes "x" ∷ []) ≡ refused
unfolding mysql_query by_text remove_quotes
mysql_query-runs_refused = refl
