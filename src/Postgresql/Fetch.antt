-- ===== src/Postgresql/Fetch.antt =====
-- dbi_Postgresql_Fetch of postgresql/generic/postgresql.c.
pub mod Lines
use tcl_dbi.Base.{
  ℕ, zero, suc, Bool, true, false, Option, none, some, List, [], ◌∷◌, map, if◌then◌else◌, length,
  get_elem?, leb,
}
use tcl_dbi.Base.Int.{ℤ, pos, negsuc}
use tcl_dbi.Memory.{Bytes}
use tcl_dbi.Tcl.{Tcl}
use tcl_dbi.Fetch.{
  Request, FetchError, no_result, line_out_of_range, field_out_of_range, Decoded, wrong, request,
  decode, postgresql_sub_cmds, as_int, target_of, at_least,
}
use tcl_dbi.Postgresql.Session.{
  Host, Result, Table, Session, Element, default_null, given, text, number, Item, cell, line,
  get_one, get_line, outside_one,
}
use tcl_dbi.Postgresql.Exec.{null_element, clear}

-- TCL_OK with the result, or none set; TCL_ERROR; a read that is not allowed.
pub data Fetched (Obj : Type 0) : Type 0 where
  ok : Option (Item Obj) → Fetched Obj
  error : FetchError → Fetched Obj
  fault : Fetched Obj

module _ ⦃tcl : Tcl⦄ ⦃host : Host⦄ where
  open tcl use {Obj}
  open host use {null_outside}

  -- A field of a row, `none` where it is outside.
  abbrev field_of : ℤ → Table → List (Option Bytes) → Option (ℕ × Option Bytes)
  field_of (negsuc i) t vs = none
  field_of (pos i) t vs = elim (get_elem? t.types i) [
    | none ↦ none
    | some ty ↦ elim (get_elem? vs i) [ none ↦ none | some v ↦ some (ty, v) ]
  ]

  abbrev show_one : Option (Element Obj) → Fetched Obj
  show_one none = fault
  show_one (some e) = ok (some (cell e))

  abbrev flag : Bool → Fetched Obj
  flag b = ok (some (cell (number (pos (if b then 1 else 0)))))

  one_field : Element Obj → Option (ℕ × Option Bytes) → Fetched Obj
  unfolding get_one outside_one
  one_field nv none = show_one (outside_one nv)
  one_field nv (some (ty, v)) = show_one (get_one nv ty v)

  data_result : ℤ → Element Obj → Table → List (Option Bytes) → Fetched Obj
  unfolding one_field get_line
  data_result (negsuc zero) nv t vs = elim (get_line nv t.types vs) [
    | none ↦ fault
    | some es ↦ ok (some (line es))
  ]
  data_result z nv t vs = one_field nv (field_of z t vs)

  abbrev null_flag : Option (ℕ × Option Bytes) → Fetched Obj
  null_flag none = flag null_outside
  null_flag (some (ty, none)) = flag true
  null_flag (some (ty, some v)) = flag false

  -- data, or isnull (5)
  on_row : Request Obj → Table → Option (List (Option Bytes)) → Fetched Obj
  unfolding data_result
  on_row r t none = fault
  on_row r t (some vs) = elim r.option [
    | zero ↦ data_result r.ifield (null_element r.null_value) t vs
    | suc _ ↦ null_flag (field_of r.ifield t vs)
  ]

  -- The line of the request, or the next one. The position moves also where the line is out of range.
  unfoldable pub fetch_line : Request Obj → Table → Session → Fetched Obj × Session
  unfolding on_row
  fetch_line r t s =
      let target = target_of s.respos r.ituple in
      let there = record s { respos = some target } in
      if leb (length t.rows) target
      then (error (line_out_of_range (pos (length t.rows))), there)
      else if at_least r.ifield (length t.names)
      then (error (field_out_of_range r.ifield), there)
      else (on_row r t (get_elem? t.rows target), there)

  -- lines (1), pos (2), fields (3) and clear (4) need no line
  unfoldable pub fetch_option : ℕ → Request Obj → Result → Session → Fetched Obj × Session
  unfolding fetch_line
  fetch_option (suc zero) r res s = (ok (some (cell (number (pos (length res.table.rows))))), s)
  fetch_option (suc (suc zero)) r res s = (ok (some (cell (number (as_int s.respos)))), s)
  fetch_option (suc (suc (suc zero))) r res s = (ok (some (line (map text res.table.names))), s)
  fetch_option (suc (suc (suc (suc zero)))) r res s =
      (ok none, record (clear res.number s) { res = none })
  fetch_option _ r res s = fetch_line r res.table s

  unfoldable pub fetch_decoded : Decoded Obj → Session → Fetched Obj × Session
  unfolding fetch_option
  fetch_decoded (wrong e) s = (error e, s)
  fetch_decoded (request r) s = elim s.res [
    | none ↦ (error no_result, s)
    | some res ↦ fetch_option r.option r res s
  ]

  -- dbi_Postgresql_Fetch, on the words after `fetch`
  unfoldable pub fetch : List Obj → Session → Fetched Obj × Session
  unfolding fetch_decoded
  fetch objv s = fetch_decoded (decode postgresql_sub_cmds s.respos objv) s
