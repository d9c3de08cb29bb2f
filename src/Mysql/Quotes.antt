-- ===== src/Mysql/Quotes.antt =====
-- dbi_Mysql_removequotes of mysql/generic/mysql.c: it copies a text without its comments and its
-- double quotes into a buffer that has one byte more than the text. Texts hold no NUL byte.
pub mod Pieces
pub mod Tests
use tcl_dbi.Base.{
  ℕ, zero, suc, ◌+◌, Bool, true, false, List, [], ◌∷◌, ◌++◌, ◌==◌, ◌&&◌, ◌||◌, if◌then◌else◌, leb,
  length,
}
use tcl_dbi.Memory.{Bytes}
use tcl_dbi.Params.{peek}

-- What the byte at `i` is: one of the text, the one behind a slash, in a C comment, the slash at its
-- end, the one behind it, in a C++ comment, in a literal, or behind a backslash in a literal.
pub data Mode : Type 0 where
  text slash comment closing behind line literal escaped : Mode

unfoldable pub next : Mode → ℕ → ℕ → Mode
next text c d = if c == b'/' then slash else if c == b'\'' then literal else text
next slash c d = if c == b'*' then comment else if c == b'/' then line else text
next comment c d = if (c == b'*') && (d == b'/') then closing else comment
next closing c d = behind
next behind c d = if c == b'/' then line else text
next line c d = if (c == b'\n') || (c == b'/') then text else line
next literal c d = if c == b'\\' then escaped else if c == b'\'' then text else literal
next escaped c d = literal

-- What is stored for the byte.
unfoldable pub stored : Mode → ℕ → Bytes
stored text c = if (c == b'/') || (c == b'"') then [] else c ∷ []
stored slash c = if (c == b'*') || (c == b'/') then [] else c ∷ []
stored comment c = []
stored closing c = []
stored behind c = if c == b'/' then [] else c ∷ []
stored line c = if (c == b'\n') || (c == b'/') then c ∷ [] else []
stored literal c = if c == b'\\' then [] else c ∷ []
stored escaped c = c ∷ []

-- The text without its comments and quotes; a store behind the buffer; a read behind the text.
pub data Removed : Type 0 where
  kept : Bytes → Removed
  outside beyond : Removed

abbrev pub before : Bytes → Removed → Removed
before s (kept t) = kept (s ++ t)
before s outside = outside
before s beyond = beyond

-- At the end of the text: a comment that is not closed has stepped over it, and from most other
-- places the terminating NUL is copied with it.
unfoldable pub at_end : Mode → Removed
at_end text = kept []
at_end slash = kept []
at_end comment = beyond
at_end closing = kept []
at_end behind = kept (0 ∷ [])
at_end line = kept (0 ∷ [])
at_end literal = kept (0 ∷ [])
at_end escaped = kept (0 ∷ [])

unfoldable pub copy : Mode → Bytes → Removed
unfolding next stored at_end
copy m [] = at_end m
copy m (c ∷ cs) = before (stored m c) (copy (next m c (peek cs)) cs)

-- The bytes are stored one behind the other, and a NUL behind them.
abbrev pub in_buffer : ℕ → Removed → Removed
in_buffer cap (kept t) = if leb (length t + 1) cap then kept t else outside
in_buffer cap outside = outside
in_buffer cap beyond = beyond

unfoldable pub remove_quotes : Bytes → Removed
unfolding copy
remove_quotes s = in_buffer (length s + 1) (copy text s)
