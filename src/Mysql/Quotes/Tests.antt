-- ===== src/Mysql/Quotes/Tests.antt =====
-- Texts without their quotes.
use tcl_dbi.Base.{◌≡◌, refl, List, [], ◌∷◌}
use tcl_dbi.Memory.{codes}
use tcl_dbi.Mysql.Quotes.{remove_quotes, kept, outside, beyond}
use tcl_dbi.Mysql.Quotes.Pieces.{
  Piece, byte, name_quote, division, c_comment, line_comment, quoted, plain, escape, source,
  remove_quotes-cleaned, remove_quotes-open_literal,
}

names_and_comment :
    remove_quotes (codes "select \"a\" /* x */ from 'it\\'s'")
    ≡ kept (codes "select a  from 'it's'")
unfolding remove_quotes
names_and_comment = refl

-- The operator of a division is dropped.
divided : remove_quotes (codes "select 6/2") ≡ kept (codes "select 62")
unfolding remove_quotes
divided = refl

open_literal : remove_quotes (codes "'a") ≡ outside
unfolding remove_quotes
open_literal = refl

open_comment : remove_quotes (codes "a /* b") ≡ beyond
unfolding remove_quotes
open_comment = refl

-- `"a"/* x */ 'i\'s'6/2//-` and a newline.
abbrev pieces : List Piece
pieces =
    name_quote
    ∷ byte b'a'
    ∷ name_quote
    ∷ c_comment (codes " x ") b' '
    ∷ quoted (plain b'i' ∷ escape b'\'' ∷ plain b's' ∷ [])
    ∷ byte b'6'
    ∷ division b'2'
    ∷ line_comment (codes "-") b'\n'
    ∷ []

remove_quotes-cleaned_example : remove_quotes (source pieces) ≡ kept (codes "a 'i's'62\n")
remove_quotes-cleaned_example = remove_quotes-cleaned pieces refl

remove_quotes-open_literal_example : remove_quotes (codes "a='b") ≡ outside
remove_quotes-open_literal_example =
    remove_quotes-open_literal (byte b'a' ∷ byte b'=' ∷ []) (plain b'b' ∷ []) refl refl
