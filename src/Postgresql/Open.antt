-- ===== src/Postgresql/Open.antt =====
-- The text for PQconnectdb that dbi_Postgresql_Open of postgresql/generic/postgresql.c makes.
use tcl_dbi.Base.{◌≡◌, refl, Bool, true, false, Option, none, some, List, [], ◌∷◌, ◌++◌}
use mathlib.Core.Option
use tcl_dbi.Memory.{Bytes, codes}

-- Two errors, the text, or a read behind an empty option.
pub data Opening : Type 0 where
  is_open wrong_count : Opening
  connect : Bytes → Opening
  beyond : Opening

-- An option without its dash, and its value.
abbrev option_text : Bytes → Bytes → Option Bytes
option_text [] value = none
option_text (dash ∷ name) value = some (codes "' " ++ (name ++ (codes "='" ++ value)))

options_text : List Bytes → Option (Option Bytes)
options_text [] = some (some [])
options_text (name ∷ []) = none
options_text (name ∷ value ∷ rest) = elim (options_text rest) [
  | none ↦ none
  | some more ↦
      some (elim (option_text name value) [ none ↦ none | some t ↦ Option.map (λ u. t ++ u) more ])
]

abbrev with_source : Bytes → Option (Option Bytes) → Opening
with_source source none = wrong_count
with_source source (some none) = beyond
with_source source (some (some t)) = connect (codes "dbname='" ++ (source ++ (t ++ codes "'")))

-- The words after `open`
open_text : Bool → List Bytes → Opening
unfolding options_text
open_text true words = is_open
open_text false [] = wrong_count
open_text false (source ∷ options) = with_source source (options_text options)

with_user :
    open_text false (codes "d" ∷ codes "-user" ∷ codes "me" ∷ [])
    ≡ connect (codes "dbname='d' user='me'")
unfolding open_text
with_user = refl

-- A quote in the name ends it.
with_quote : open_text false (codes "d' host='h" ∷ []) ≡ connect (codes "dbname='d' host='h'")
unfolding open_text
with_quote = refl
