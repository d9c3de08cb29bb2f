-- ===== src/Sqlite3/Row.antt =====
-- A row of a result as Tcl values: dbi_Sqlite3_getresultfield, dbi_Sqlite3_getrow and the column
-- names of dbi_Sqlite3_getcolnames.
use tcl_dbi.Base.{
  ℕ, ◌-◌, Bool, Option, none, some, List, [], ◌∷◌, ◌==◌, ◌&&◌, if◌then◌else◌, ◌>>=◌, take, length,
  ltb,
}
use tcl_dbi.Base.Int.{ℤ, pos, negsuc}
use tcl_dbi.Memory.{Bytes}
use tcl_dbi.Sqlite3.Host.{Host, Value, null, integer, float, text, blob}

-- `v >= -2147483647 && v <= 2147483647`
abbrev pub fits_int : ℤ → Bool
fits_int (pos n) = ltb n 2147483648
fits_int (negsuc n) = ltb n 2147483647

-- A quoted column name without its quotes.
unfoldable pub last_or : ℕ → Bytes → ℕ
last_or d [] = d
last_or d (b ∷ bs) = last_or b bs

unfoldable pub unquoted : Bytes → Bytes
unfolding last_or
unquoted [] = []
unquoted (b ∷ bs) =
    if (b == b'"') && (last_or b bs == b'"') then take (length bs - 1) bs else b ∷ bs

module _ ⦃host : Host⦄ where
  open host use {Obj, new_string, new_byte_array, new_int, new_wide, new_double, new_list}

  -- dbi_Sqlite3_getresultfield; `none` is the NULL pointer, for a NULL column
  unfoldable pub result_field : Value → Option Obj
  result_field null = none
  result_field (integer v) = some (if fits_int v then new_int v else new_wide v)
  result_field (float r) = some (new_double r)
  result_field (text s) = some (new_string s)
  result_field (blob s) = some (new_byte_array s)

  abbrev pub or_null : Option Obj → Option Obj → Option Obj
  or_null nullvalue none = nullvalue
  or_null nullvalue (some o) = some o

  -- dbi_Sqlite3_getrow; `none` where a NULL column meets a null value that was never set
  unfoldable pub get_row : Option Obj → List Value → Option (List Obj)
  unfolding result_field
  get_row nullvalue [] = some []
  get_row nullvalue (v ∷ vs) =
      or_null nullvalue (result_field v) >>= λ o. get_row nullvalue vs >>= λ os. some (o ∷ os)

  -- The result of get with no field named: name and value of each column that is not NULL.
  unfoldable pub named_fields : List Bytes → List Value → List Obj
  unfolding result_field unquoted
  named_fields [] vs = []
  named_fields (n ∷ ns) [] = []
  named_fields (n ∷ ns) (v ∷ vs) = elim (result_field v) [
    | none ↦ named_fields ns vs
    | some o ↦ new_string (unquoted n) ∷ o ∷ named_fields ns vs
  ]
