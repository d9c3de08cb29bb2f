-- ===== src/Postgresql/Session.antt =====
-- One database object of postgresql/generic/postgresql.c, the library libpq that it calls, and
-- dbi_Postgresql_GetOne and dbi_Postgresql_ToResult. A step returns `none` where it reads before a
-- string, or a variable that is not set.
use tcl_dbi.Base.{
  ℕ, zero, suc, ◌-◌, Bool, true, false, Option, none, some, List, [], ◌∷◌, ◌++◌, ◌==◌, ◌||◌, map,
  if◌then◌else◌, leb, length, take, get_elem?,
}
use mathlib.Core.Option
use tcl_dbi.Base.Int.{ℤ}
use tcl_dbi.Memory.{Bytes, codes}

-- A call of PQexec, and PQclear of the result that the call at this place gave.
pub data Call : Type 0 where
  ran : Bytes → Call
  cleared : ℕ → Call

-- Newest first.
abbrev pub History : Type 0
History = List Call

-- What PQfname, PQftype, PQgetisnull and PQgetvalue say of a result.
pub record Table : Type 0 where
  pub names : List Bytes
  pub types : List ℕ
  pub rows : List (List (Option Bytes))

-- PQexec gives NULL, PGRES_COMMAND_OK with PQcmdTuples, PGRES_TUPLES_OK, or another status.
pub data Reply : Type 0 where
  nothing : Reply
  command : Bytes → Reply
  tuples : Table → Reply
  refused : Reply

-- libpq: its replies may depend on all calls before. `null_outside` is what PQgetisnull says of a
-- field outside the row; `reads_double` is whether Tcl_GetDoubleFromObj reads the text.
pub record Host : Type 0 where
  pub reply : History → Bytes → Reply
  pub null_outside : Bool
  pub reads_double : Bytes → Bool

-- A result by the place of the call that gave it.
pub record Result : Type 0 where
  pub number : ℕ
  pub table : Table

-- `res`, and `respos`, which is `none` for -1.
pub record Session : Type 0 where
  pub calls : History
  pub res : Option Result
  pub respos : Option ℕ

-- A Tcl object in a result: defnullvalue, an object that the script gave, a string, or the double
-- that stands in a string.
pub data Element (Obj : Type 0) : Type 0 where
  default_null : Element Obj
  given : Obj → Element Obj
  text : Bytes → Element Obj
  double : Bytes → Element Obj
  number : ℤ → Element Obj

pub data Item (Obj : Type 0) : Type 0 where
  cell : Element Obj → Item Obj
  line : List (Element Obj) → Item Obj

-- BPCHAROID, FLOAT4OID, FLOAT8OID, TIMEOID, TIMESTAMPOID
abbrev pub bpchar_oid : ℕ
bpchar_oid = 1042

abbrev is_float : ℕ → Bool
is_float t = (t == 700) || (t == 701)

abbrev is_time : ℕ → Bool
is_time t = (t == 1083) || (t == 1114)

-- `while (string[len-1] == ' ') {...len--;}` from a length; at length 0 it reads before the string.
unfoldable pub trim : ℕ → Bytes → Option Bytes
trim zero s = none
trim (suc n) s =
    let shorter = trim n s in
    elim (get_elem? s n) [
      | none ↦ none
      | some c ↦ if c == b' ' then shorter else some (take (suc n) s)
    ]

-- `if (string[len-3] == '+') {len -= 3;}`
unfoldable pub cut_zone : Bytes → Option Bytes
cut_zone s =
    if leb 3 (length s)
    then elim (get_elem? s (length s - 3)) [
      | none ↦ none
      | some c ↦ some (if c == b'+' then take (length s - 3) s else s)
    ]
    else none

module _ {Obj : Type 0} ⦃host : Host⦄ where
  open host use {null_outside, reads_double}

  -- A value that is not NULL, by its type.
  unfoldable pub get_value : ℕ → Bytes → Option (Element Obj)
  unfolding trim cut_zone
  get_value t s =
      if t == bpchar_oid
      then Option.map text (trim (length s) s)
      else if is_time t
      then Option.map (λ u. text (u ++ codes ".000")) (cut_zone s)
      else if is_float t
      then (if reads_double s then some (double s) else none)
      else some (text s)

  -- dbi_Postgresql_GetOne
  unfoldable pub get_one : Element Obj → ℕ → Option Bytes → Option (Element Obj)
  unfolding get_value
  get_one nv t none = some nv
  get_one nv t (some s) = get_value t s

  -- A field outside the row: NULL or not, as PQgetisnull says; it has no value to read.
  unfoldable pub outside_one : Element Obj → Option (Element Obj)
  outside_one nv = if null_outside then some nv else none

  -- The fields of a row, by the types of the columns.
  unfoldable pub get_line : Element Obj → List ℕ → List (Option Bytes) → Option (List (Element Obj))
  unfolding get_one
  get_line nv [] vs = some []
  get_line nv (t ∷ ts) [] = none
  get_line nv (t ∷ ts) (v ∷ vs) = elim (get_one nv t v) [
    | none ↦ none
    | some e ↦ Option.map (λ es. e ∷ es) (get_line nv ts vs)
  ]

  abbrev as_items : Bool → List (Element Obj) → List (Item Obj)
  as_items true es = map cell es
  as_items false es = line es ∷ []

  -- dbi_Postgresql_ToResult
  unfoldable pub to_result :
      Bool → Element Obj → List ℕ → List (List (Option Bytes)) → Option (List (Item Obj))
  unfolding get_line
  to_result flat nv ts [] = some []
  to_result flat nv ts (vs ∷ rows) = elim (get_line nv ts vs) [
    | none ↦ none
    | some es ↦ Option.map (λ items. as_items flat es ++ items) (to_result flat nv ts rows)
  ]
