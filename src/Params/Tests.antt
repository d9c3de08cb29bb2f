-- ===== src/Params/Tests.antt =====
-- Runs of the parameter search and replacement, and the theorems at concrete arguments.
use tcl_dbi.Base.{◌+◌, ◌≡◌, ◌≢◌, refl, none, some, List, [], ◌∷◌, ◌++◌, length}
use tcl_dbi.Memory.{Bytes, codes}
use tcl_dbi.Params.{parse_statement, scan, text}
use tcl_dbi.Params.Text.{doubled, value_text}
use tcl_dbi.Params.Parse.{Places, parse_statement-Places}
use tcl_dbi.Params.Exec.{value_text-closed, unquote, unquote-value_text}

abbrev sql : Bytes
sql = codes "select ? from t where a = '?' and b = ?"

finds_two : parse_statement sql ≡ 7 ∷ 38 ∷ []
unfolding parse_statement
finds_two = refl

-- The slash that ends a comment is read as the start of another one, so the next byte is skipped.
misses_behind_comment : parse_statement (codes "select /* a */?") ≡ []
unfolding parse_statement
misses_behind_comment = refl

misses_behind_division : parse_statement (codes "select 1/?") ≡ []
unfolding parse_statement
misses_behind_division = refl

-- A value that ends in a backslash leaves its literal open: the text behind it is read as inside.
backslash_stays_open : parse_statement (value_text none (codes "\\") ++ codes " ?") ≡ []
unfolding parse_statement doubled
backslash_stays_open = refl

abbrev values : List Bytes
values = codes "it's" ∷ codes "?" ∷ []

abbrev spliced_sql : Bytes
spliced_sql = codes "select 'it''s' from t where a = '?' and b = '?'"

wrong : length {A = Bytes} [] ≢ length (parse_statement sql)
unfolding parse_statement
wrong e = cc

parse_statement-Places_example : Places sql 0 (parse_statement sql)
parse_statement-Places_example = parse_statement-Places sql

value_text-closed_example :
    scan text 0 (value_text none (codes "it's ?") ++ codes " and ?")
    ≡ scan text (0 + length (value_text none (codes "it's ?"))) (codes " and ?")
value_text-closed_example = value_text-closed 0 (codes "it's ?") (codes " and ?") refl

unquote-value_text_example :
    unquote (value_text none (codes "it's") ++ codes " and") ≡ some (codes "it's", codes " and")
unquote-value_text_example = unquote-value_text (codes "it's") (codes " and") refl
