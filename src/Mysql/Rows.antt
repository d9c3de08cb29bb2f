-- ===== src/Mysql/Rows.antt =====
-- The values and rows of a result of mysql/generic/mysql.c: dbi_Mysql_GetOne on the current row,
-- dbi_Mysql_Fetch_Row, dbi_Mysql_ToResult, dbi_Mysql_ToResult_flat and dbi_Mysql_Fetch_Array.
-- `none` is a use of a variable that is not set.
pub mod Times
pub mod Tests
use tcl_dbi.Base.{
  ℕ, ◌+◌, Bool, true, false, Option, none, some, List, [], ◌∷◌, ◌++◌, ◌==◌, map, if◌then◌else◌,
  length, take, drop,
}
use mathlib.Core.Option
use tcl_dbi.Memory.{Bytes, codes}

-- The types of a field that GetOne tells apart: FIELD_TYPE_FLOAT and FIELD_TYPE_DOUBLE,
-- FIELD_TYPE_TIME, FIELD_TYPE_TIMESTAMP, and the others.
pub data FieldType : Type 0 where
  float time timestamp other : FieldType

-- defnullvalue, an object that the script gave, a string, or the double that stands in a string.
pub data Element (Obj : Type 0) : Type 0 where
  default_null : Element Obj
  given : Obj → Element Obj
  string : Bytes → Element Obj
  double : Bytes → Element Obj

-- `%2.2s` and `%4.4s` at `string+i`
abbrev pub part : ℕ → ℕ → Bytes → Bytes
part i n s = take n (drop i s)

abbrev pub date : ℕ → Bytes → Bytes
date y s = part 0 y s ++ (codes "-" ++ (part y 2 s ++ (codes "-" ++ part (y + 2) 2 s)))

abbrev pub clock : ℕ → Bytes → Bytes
clock i s = codes " " ++ (part i 2 s ++ (codes ":" ++ part (i + 2) 2 s))

abbrev pub seconds : ℕ → Bytes → Bytes
seconds i s = codes ":" ++ (part i 2 s ++ codes ".000")

-- The text of a timestamp by its length. For another length the buffer is not set; for length 6 it is
-- not set either, since it is the format of a printf.
unfoldable pub timestamp_text : Bytes → Option Bytes
timestamp_text s =
    let n = length s in
    if n == 2
    then some (part 0 2 s)
    else if n == 4
    then some (part 0 2 s ++ (codes "-" ++ part 2 2 s))
    else if n == 8
    then some (date 4 s)
    else if n == 10
    then some (date 2 s ++ clock 6 s)
    else if n == 12
    then some (date 2 s ++ (clock 6 s ++ seconds 10 s))
    else if n == 14
    then some (date 4 s ++ (clock 8 s ++ seconds 12 s))
    else if n == 19
    then some (s ++ codes ".000")
    else none

module _ {Obj : Type 0} (reads_double : Bytes → Bool) where
  -- A value that is not NULL; `reads_double` is whether Tcl_GetDoubleFromObj reads the text.
  unfoldable pub get_value : FieldType → Bytes → Option (Element Obj)
  unfolding timestamp_text
  get_value float s = if reads_double s then some (double s) else none
  get_value time s = some (string (s ++ codes ".000"))
  get_value timestamp s = Option.map string (timestamp_text s)
  get_value other s = some (string s)

  unfoldable pub get_one : Element Obj → FieldType → Option Bytes → Option (Element Obj)
  unfolding get_value
  get_one nv t none = some nv
  get_one nv t (some s) = get_value t s

  -- dbi_Mysql_Fetch_Row; a row has a value for each field.
  unfoldable pub fetch_row :
      Element Obj → List FieldType → List (Option Bytes) → Option (List (Element Obj))
  unfolding get_one
  fetch_row nv [] vs = some []
  fetch_row nv (t ∷ ts) [] = none
  fetch_row nv (t ∷ ts) (v ∷ vs) = elim (get_one nv t v) [
    | none ↦ none
    | some e ↦ Option.map (λ es. e ∷ es) (fetch_row nv ts vs)
  ]

  -- dbi_Mysql_ToResult
  unfoldable pub to_result :
      Element Obj → List FieldType → List (List (Option Bytes)) → Option (List (List (Element Obj)))
  unfolding fetch_row
  to_result nv ts [] = some []
  to_result nv ts (vs ∷ rows) = elim (fetch_row nv ts vs) [
    | none ↦ none
    | some es ↦ Option.map (λ lines. es ∷ lines) (to_result nv ts rows)
  ]

  -- The loop over the fields of one row, with the elements before it.
  flat_row :
      Element Obj
      → List FieldType
      → List (Option Bytes)
      → List (Element Obj)
      → Option (List (Element Obj))
  unfolding get_one
  flat_row nv [] vs done = some done
  flat_row nv (t ∷ ts) [] done = none
  flat_row nv (t ∷ ts) (v ∷ vs) done = elim (get_one nv t v) [
    | none ↦ none
    | some e ↦ flat_row nv ts vs (done ++ e ∷ [])
  ]

  flat_rows :
      Element Obj
      → List FieldType
      → List (List (Option Bytes))
      → List (Element Obj)
      → Option (List (Element Obj))
  unfolding flat_row
  flat_rows nv ts [] done = some done
  flat_rows nv ts (vs ∷ rows) done = elim (flat_row nv ts vs done) [
    | none ↦ none
    | some more ↦ flat_rows nv ts rows more
  ]

  -- dbi_Mysql_ToResult_flat
  unfoldable pub to_result_flat :
      Element Obj → List FieldType → List (List (Option Bytes)) → Option (List (Element Obj))
  unfolding flat_rows
  to_result_flat nv ts rows = flat_rows nv ts rows []

  -- dbi_Mysql_Fetch_Array
  unfoldable pub fetch_array :
      Element Obj → List (Bytes × FieldType) → List (Option Bytes) → Option (List (Element Obj))
  unfolding get_one
  fetch_array nv [] vs = some []
  fetch_array nv (f ∷ fs) [] = none
  fetch_array nv ((name, t) ∷ fs) (v ∷ vs) = elim (get_one nv t v) [
    | none ↦ none
    | some e ↦ Option.map (λ es. string name ∷ e ∷ es) (fetch_array nv fs vs)
  ]
