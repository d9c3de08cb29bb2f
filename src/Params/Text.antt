-- ===== src/Params/Text.antt =====
-- What the replacement of parameters means, apart from buffers.
use tcl_dbi.Base.{ℕ, suc, Option, List, [], ◌∷◌, ◌++◌, ◌==◌, if◌then◌else◌, drop}
use tcl_dbi.Memory.{Bytes, codes}
use tcl_dbi.Params.{is_null, slice}

-- Each quote twice.
unfoldable pub doubled : Bytes → Bytes
doubled [] = []
doubled (c ∷ cs) = if c == b'\'' then b'\'' ∷ b'\'' ∷ doubled cs else c ∷ doubled cs

-- A value as an SQL literal.
abbrev pub value_text : Option Bytes → Bytes → Bytes
value_text null o = if is_null null o then codes "NULL" else codes "'" ++ (doubled o ++ codes "'")

-- The text from place `prv` on, with the values at the places.
abbrev pub spliced : Bytes → Option Bytes → ℕ → List ℕ → List Bytes → Bytes
spliced cmd null prv ps [] = drop prv cmd
spliced cmd null prv [] (o ∷ os) = drop prv cmd
spliced cmd null prv (p ∷ ps) (o ∷ os) =
    slice prv p cmd ++ (value_text null o ++ spliced cmd null (suc p) ps os)
