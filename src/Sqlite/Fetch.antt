-- ===== src/Sqlite/Fetch.antt =====
-- dbi_Sqlite_Fetch of sqlite/generic/sqlite.c.
pub mod Rows
use tcl_dbi.Base.{
  ℕ, zero, suc, Bool, true, false, Option, none, some, List, [], ◌∷◌, ◌++◌, map, if◌then◌else◌,
  length, get_elem?, leb, ltb,
}
use tcl_dbi.Base.Int.{ℤ, pos, negsuc}
use tcl_dbi.Memory.{Bytes}
use tcl_dbi.Tcl.{Tcl}
use tcl_dbi.Fetch.{
  Request, FetchError, no_result, not_a_list, line_out_of_range, field_out_of_range, Decoded, wrong,
  request, decode, sub_cmds, as_int, target_of, at_least,
}
use tcl_dbi.Sqlite.Session.{Element, default_null, given, value, number, Item, cell, line, Session}

-- TCL_OK with the result, or none set; TCL_ERROR; a use of NULL or of an element outside a line.
pub data Fetched (Obj : Type 0) : Type 0 where
  ok : Option (Item Obj) → Fetched Obj
  error : FetchError → Fetched Obj
  fault : Fetched Obj

module _ ⦃tcl : Tcl⦄ where
  open tcl use {Obj, elements}

  -- Whether the object is defnullvalue, and what is shown in its place.
  abbrev pub show : Element Obj → Element Obj → Element Obj
  show nv default_null = nv
  show nv e = e

  -- The line as a list; a value read as a list has the script's elements.
  unfoldable pub line_elements : Item Obj → Option (List (Element Obj))
  line_elements (line es) = some es
  line_elements (cell (given o)) = elim (elements o) [ none ↦ none | some os ↦ some (map given os) ]
  line_elements (cell e) = some (e ∷ [])

  -- Tcl_ListObjIndex gives NULL outside the list.
  abbrev element_at : ℤ → List (Element Obj) → Option (Element Obj)
  element_at (pos i) es = get_elem? es i
  element_at (negsuc i) es = none

  one_field : Element Obj → Option (Element Obj) → Fetched Obj
  one_field nv none = fault
  one_field nv (some e) = ok (some (cell (show nv e)))

  abbrev null_flag : Option (Element Obj) → Fetched Obj
  null_flag none = ok (some (cell (number (pos 0))))
  null_flag (some default_null) = ok (some (cell (number (pos 1))))
  null_flag (some e) = ok (some (cell (number (pos 0))))

  -- Fields and values in turn; a value outside the line is a fault.
  unfoldable pub interleave :
      Element Obj → List Bytes → List (Element Obj) → Option (List (Element Obj))
  interleave nv [] es = some []
  interleave nv (n ∷ ns) [] = none
  interleave nv (n ∷ ns) (e ∷ es) = elim (interleave nv ns es) [
    | none ↦ none
    | some rest ↦ some (value n ∷ show nv e ∷ rest)
  ]

  as_array : Option (List Bytes) → Element Obj → List (Element Obj) → Fetched Obj
  unfolding interleave
  as_array none nv es = ok none
  as_array (some ns) nv es = elim (interleave nv ns es) [
    | none ↦ fault
    | some l ↦ ok (some (line l))
  ]

  data_result : ℤ → Element Obj → List (Element Obj) → Fetched Obj
  unfolding one_field
  data_result (negsuc zero) nv es = ok (some (line (map (show nv) es)))
  data_result z nv es = one_field nv (element_at z es)

  -- The line by the subcommand: data, isnull (4) or array (5).
  deliver : ℕ → ℤ → Element Obj → Option (List Bytes) → List (Element Obj) → Fetched Obj
  unfolding data_result as_array
  deliver (suc (suc (suc (suc zero)))) z nv names es = null_flag (element_at z es)
  deliver (suc (suc (suc (suc (suc n))))) z nv names es = as_array names nv es
  deliver _ z nv names es = data_result z nv es

  abbrev null_of : Option Obj → Element Obj
  null_of none = default_null
  null_of (some o) = given o

  -- data of a whole line without a null value hands the line over as it is.
  abbrev is_whole : ℕ → ℤ → Option Obj → Bool
  is_whole zero (negsuc zero) none = true
  is_whole w z nv = false

  on_line : Request Obj → Session Obj → Option (Item Obj) → Fetched Obj
  unfolding deliver line_elements
  on_line r s none = fault
  on_line r s (some item) =
      if is_whole r.option r.ifield r.null_value
      then ok (some item)
      else elim (line_elements item) [
        | none ↦ error not_a_list
        | some es ↦ deliver r.option r.ifield (null_of r.null_value) s.resultfields es
      ]

  -- The line of the request, among `items`; without a line the current one moves on first.
  unfoldable pub fetch_line :
      Request Obj → List (Item Obj) → Session Obj → Fetched Obj × Session Obj
  unfolding on_line
  fetch_line r items s =
      let target = target_of s.tuple r.ituple in
      let moved : Session Obj = elim r.ituple [
        | none ↦ record s { tuple = some target }
        | some _ ↦ s
      ] in
      let out = error (line_out_of_range (pos (length items))) in
      let there = record s { tuple = some target } in
      if ltb (length items) target
      then (out, moved)
      else if at_least r.ifield s.nfields
      then (error (field_out_of_range r.ifield), moved)
      else if leb (length items) target
      then (out, moved)
      else (on_line r there (get_elem? items target), there)

  -- lines (1), pos (2) and fields (3) need no line
  unfoldable pub fetch_option :
      ℕ → Request Obj → List (Item Obj) → Session Obj → Fetched Obj × Session Obj
  unfolding fetch_line
  fetch_option (suc zero) r items s = (ok (some (cell (number (pos (length items))))), s)
  fetch_option (suc (suc zero)) r items s = (ok (some (cell (number (as_int s.tuple)))), s)
  fetch_option (suc (suc (suc zero))) r items s =
      (ok (elim s.resultfields [ none ↦ none | some ns ↦ some (line (map value ns)) ]), s)
  fetch_option _ r items s = fetch_line r items s

  fetch_decoded : Decoded Obj → List (Item Obj) → Session Obj → Fetched Obj × Session Obj
  unfolding fetch_option
  fetch_decoded (wrong e) items s = (error e, s)
  fetch_decoded (request r) items s =
      fetch_option r.option r items (record s { ntuples = length items })

  -- dbi_Sqlite_Fetch, on the words after `fetch`
  unfoldable pub fetch : List Obj → Session Obj → Fetched Obj × Session Obj
  unfolding fetch_decoded
  fetch objv s = elim s.result [
    | none ↦ (error no_result, s)
    | some items ↦ fetch_decoded (decode sub_cmds s.tuple objv) items s
  ]
