-- ===== src/Mysql/Fetch.antt =====
-- dbi_Mysql_Fetch of mysql/generic/mysql.c, on a result of mysql_store_result. The client library
-- keeps a place in the result: mysql_fetch_row reads there and steps on, mysql_data_seek sets it.
pub mod Aligned
pub mod Tests
use tcl_dbi.Base.{
  ℕ, zero, suc, Bool, true, false, Option, none, some, List, [], ◌∷◌, ◌==◌, map, if◌then◌else◌,
  length, get_elem?, leb,
}
use tcl_dbi.Base.Int.{ℤ, pos, negsuc}
use tcl_dbi.Memory.{Bytes}
use tcl_dbi.Tcl.{Tcl}
use tcl_dbi.Fetch.{
  Request, FetchError, no_result, line_out_of_range, field_out_of_range, Decoded, wrong, request,
  decode, sub_cmds, as_int, next_line, target_of, at_least,
}
use tcl_dbi.Mysql.Rows.{
  Element, default_null, given, string, FieldType, get_one, fetch_row, fetch_array,
}

abbrev pub Row : Type 0
Row = List (Option Bytes)

pub record Result : Type 0 where
  pub fields : List (Bytes × FieldType)
  pub rows : List Row

-- `result`, the place that the library keeps in it, `row` and `tuple`, `none` for NULL and -1.
pub record Session : Type 0 where
  pub result : Option Result
  pub place : ℕ
  pub row : Option Row
  pub tuple : Option ℕ

pub data Fetched (Obj : Type 0) : Type 0 where
  number : ℤ → Fetched Obj
  names : List Bytes → Fetched Obj
  line : List (Element Obj) → Fetched Obj
  one : Element Obj → Fetched Obj
  error : FetchError → Fetched Obj
  fault : Fetched Obj

-- `dbdata->row = mysql_fetch_row(dbdata->result)`
abbrev pub read_row : Result → Session → Session
read_row r s = record s { row = get_elem? r.rows s.place; place = suc s.place }

abbrev pub sought : Result → ℕ → Session → Session
sought r n s = record (read_row r (record s { place = n })) { tuple = some n }

-- Another row than the next one is sought, but the current one stays.
unfoldable pub seek_to : Result → ℕ → Option ℕ → Session → Session
seek_to r n none s = sought r n s
seek_to r n (some t) s = if n == t then s else sought r n s

-- The next row is read on.
unfoldable pub move_to : Result → ℕ → Session → Session
unfolding seek_to
move_to r n s =
    if n == next_line s.tuple
    then record (read_row r s) { tuple = some n }
    else seek_to r n s.tuple s

module _ ⦃tcl : Tcl⦄ (reads_double : Bytes → Bool) where
  open tcl use {Obj}

  abbrev pub null_of : Option Obj → Element Obj
  null_of none = default_null
  null_of (some o) = given o

  abbrev line_or_fault : Option (List (Element Obj)) → Fetched Obj
  line_or_fault none = fault
  line_or_fault (some es) = line es

  abbrev one_or_fault : Option (Element Obj) → Fetched Obj
  one_or_fault none = fault
  one_or_fault (some e) = one e

  -- The field at a place, none outside of the row.
  abbrev field_of : ℤ → Result → Row → Option (FieldType × Option Bytes)
  field_of (negsuc i) r vs = none
  field_of (pos i) r vs = elim (get_elem? r.fields i) [
    | none ↦ none
    | some (name, t) ↦ elim (get_elem? vs i) [ none ↦ none | some v ↦ some (t, v) ]
  ]

  one_field : Element Obj → Option (FieldType × Option Bytes) → Fetched Obj
  unfolding get_one
  one_field nv none = fault
  one_field nv (some (t, v)) = one_or_fault (get_one reads_double nv t v)

  abbrev null_flag : Option (FieldType × Option Bytes) → Fetched Obj
  null_flag none = fault
  null_flag (some (t, none)) = number (pos 1)
  null_flag (some (t, some v)) = number (pos 0)

  data_result : ℤ → Element Obj → Result → Row → Fetched Obj
  unfolding one_field fetch_row
  data_result (negsuc zero) nv r vs =
      line_or_fault (fetch_row reads_double nv (map (λ f. f.1) r.fields) vs)
  data_result z nv r vs = one_field nv (field_of z r vs)

  -- data, isnull (4) or array (5)
  unfoldable pub deliver : ℕ → ℤ → Element Obj → Result → Option Row → Fetched Obj
  unfolding data_result fetch_array
  deliver w z nv r none = fault
  deliver (suc (suc (suc (suc zero)))) z nv r (some vs) = null_flag (field_of z r vs)
  deliver (suc (suc (suc (suc (suc w))))) z nv r (some vs) =
      line_or_fault (fetch_array reads_double nv r.fields vs)
  deliver _ z nv r (some vs) = data_result z nv r vs

  unfoldable pub fetch_line : Request Obj → Result → Session → Fetched Obj × Session
  unfolding deliver move_to
  fetch_line q r s =
      let target = target_of s.tuple q.ituple in
      let there = move_to r target s in
      if leb (length r.rows) target
      then (error (line_out_of_range (pos (length r.rows))), s)
      else if at_least q.ifield (length r.fields)
      then (error (field_out_of_range q.ifield), there)
      else (deliver q.option q.ifield (null_of q.null_value) r there.row, there)

  -- lines (1), pos (2) and fields (3) need no line
  unfoldable pub fetch_option : ℕ → Request Obj → Result → Session → Fetched Obj × Session
  unfolding fetch_line
  fetch_option (suc zero) q r s = (number (pos (length r.rows)), s)
  fetch_option (suc (suc zero)) q r s = (number (as_int s.tuple), s)
  fetch_option (suc (suc (suc zero))) q r s = (names (map (λ f. f.0) r.fields), s)
  fetch_option _ q r s = fetch_line q r s

  unfoldable pub fetch_decoded : Decoded Obj → Result → Session → Fetched Obj × Session
  unfolding fetch_option
  fetch_decoded (wrong e) r s = (error e, s)
  fetch_decoded (request q) r s = fetch_option q.option q r s

  -- dbi_Mysql_Fetch, on the words after `fetch`
  unfoldable pub fetch : List Obj → Session → Fetched Obj × Session
  unfolding fetch_decoded
  fetch objv s = elim s.result [
    | none ↦ (error no_result, s)
    | some r ↦ fetch_decoded (decode sub_cmds s.tuple objv) r s
  ]
