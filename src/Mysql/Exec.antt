-- ===== src/Mysql/Exec.antt =====
-- What dbi_Mysql_Exec of mysql/generic/mysql.c hands to the server: a command without its quotes, and
-- divided where it holds a semicolon, else with its parameters replaced.
pub mod Spliced
pub mod Tests
use tcl_dbi.Base.{
  ℕ, Bool, true, false, Option, none, some, List, [], ◌∷◌, ◌==◌, ◌||◌, if◌then◌else◌,
}
use tcl_dbi.Memory.{Bytes}
use tcl_dbi.Params.{Query, query}
use tcl_dbi.Mysql.Quotes.{Removed, kept, outside, beyond, remove_quotes}

-- Nothing for an empty command; several statements with values are refused, and without values the
-- text goes to SplitSQL, which divides it; one statement; a store or a read outside of the texts.
pub data Sent : Type 0 where
  idle refused : Sent
  several : Bytes → Sent
  single : Query → Sent
  fault : Sent

-- SplitSQL leaves no lines where the text has no semicolon.
abbrev pub has_semicolon : Bytes → Bool
has_semicolon [] = false
has_semicolon (c ∷ cs) = (c == b';') || has_semicolon cs

abbrev lines_of : Bytes → List Bytes → Sent
lines_of cmd [] = several cmd
lines_of cmd (o ∷ os) = refused

unfoldable pub by_text : ℕ → Option Bytes → List Bytes → Removed → Sent
unfolding query
by_text junk null os (kept cmd) =
    if has_semicolon cmd then lines_of cmd os else single (query 1 junk cmd null os)
by_text junk null os outside = fault
by_text junk null os beyond = fault

unfoldable pub mysql_query : ℕ → Bytes → Option Bytes → List Bytes → Sent
unfolding by_text remove_quotes
mysql_query junk [] null os = idle
mysql_query junk (c ∷ cs) null os = by_text junk null os (remove_quotes (c ∷ cs))
