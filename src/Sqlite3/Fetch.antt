-- ===== src/Sqlite3/Fetch.antt =====
-- dbi_Sqlite3_Fetch of sqlite3/generic/sqlite.c: the arguments, the positioning on a line by steps
-- of the pending statement, and the result.
pub mod Position
use tcl_dbi.Base.{
  ℕ, zero, suc, ◌+◌, ◌-◌, ◌≡◌, Bool, true, false, Option, none, some, List, [], ◌∷◌, ◌++◌, ◌==◌,
  ◌&&◌, if◌then◌else◌, ltb, leb, get_elem?, map,
}
use tcl_dbi.Base.Int.{ℤ, pos, negsuc}
use tcl_dbi.Base.State.{State}
use tcl_dbi.Memory.{bytes_eq, Bytes, codes}
use tcl_dbi.Sqlite3.Host.{
  Host, Stmt, StepCode, row, done, okay, failure, misuse, other, step, Value, null,
}
use tcl_dbi.Sqlite3.Host
use tcl_dbi.Sqlite3.Session.{Session, Pending, call}
use tcl_dbi.Sqlite3.Row.{get_row, result_field}

-- `subCmds` and `switches`
abbrev sub_cmds : List Bytes
sub_cmds =
    codes "data"
    ∷ codes "lines"
    ∷ codes "pos"
    ∷ codes "fields"
    ∷ codes "isnull"
    ∷ codes "array"
    ∷ []

abbrev switches : List Bytes
switches = codes "-nullvalue" ∷ []

pub data What : Type 0 where
  data_ lines pos_ fields isnull array : What

abbrev what_of : ℕ → What
what_of zero = data_
what_of (suc zero) = lines
what_of (suc (suc zero)) = pos_
what_of (suc (suc (suc zero))) = fields
what_of (suc (suc (suc (suc zero)))) = isnull
what_of _ = array

pub data FetchError : Type 0 where
  no_result no_value_given wrong_arguments not_an_int lines_not_supported : FetchError
  line_out_of_range : ℤ → FetchError
  backwards database_error : FetchError
  field_out_of_range : ℤ → FetchError

-- TCL_OK with the result, or no result set; TCL_ERROR; and `fault` for a use of NULL.
pub data Fetched (A : Type 0) : Type 0 where
  ok : Option A → Fetched A
  error : FetchError → Fetched A
  fault : Fetched A

-- The decoded arguments: the line (-1, the next one, is `none`) and the field (-1 for all).
pub record Request (Obj : Type 0) : Type 0 where
  pub what : What
  pub null_value : Option Obj
  pub ituple : Option ℕ
  pub ifield : ℤ

pub data Decoded (Obj : Type 0) : Type 0 where
  wrong : FetchError → Decoded Obj
  request : Request Obj → Decoded Obj

abbrev pub as_int : Option ℕ → ℤ
as_int none = negsuc 0
as_int (some n) = pos n

-- ifield >= nfields
abbrev pub at_least : ℤ → ℕ → Bool
at_least (pos i) n = leb n i
at_least (negsuc i) n = false

-- Where the positioning ends: on the line, or at one of the three errors.
pub data Place : Type 0 where
  arrived out_of_position backward broken : Place

abbrev pub past_end : Option ℕ → ℕ → Bool
past_end none target = false
past_end (some n) target = leb n target

abbrev pub next_line : Option ℕ → ℕ
next_line none = 0
next_line (some t) = suc t

abbrev pub line_or_zero : Option ℕ → ℕ
line_or_zero none = 0
line_or_zero (some t) = t

abbrev pub target_of : Option ℕ → Option ℕ → ℕ
target_of current none = next_line current
target_of current (some n) = n

module _ ⦃host : Host⦄ where
  open host use {
    Obj, string, get_int, get_index, new_int, new_string, new_list, step_result, column_values,
  }

  -- The line: a negative one is out of range.
  abbrev line_of : ℤ → (ℕ → Decoded Obj) → Decoded Obj
  line_of (negsuc n) next = wrong (line_out_of_range (negsuc n))
  line_of (pos n) next = next n

  decode_line : Option ℕ → Obj → (ℕ → Decoded Obj) → Decoded Obj
  decode_line current o next =
      if bytes_eq (string o) (codes "current")
      then line_of (as_int current) next
      else elim (get_int o) [ none ↦ wrong not_an_int | some z ↦ line_of z next ]

  decode_place : Option ℕ → What → Option Obj → List Obj → Decoded Obj
  unfolding decode_line
  decode_place current w nv [] =
      request (record { what = w; null_value = nv; ituple = none; ifield = negsuc 0 })
  decode_place current w nv (l ∷ []) =
      decode_line current l
        λ n. request (record { what = w; null_value = nv; ituple = some n; ifield = negsuc 0 })
  decode_place current w nv (l ∷ f ∷ []) = decode_line current l λ n. elim (get_int f) [
    | none ↦ wrong not_an_int
    | some z ↦ request (record { what = w; null_value = nv; ituple = some n; ifield = z })
  ]
  decode_place current w nv (l ∷ f ∷ _ ∷ _) = wrong wrong_arguments

  -- The switches, up to the first word that is none.
  decode_switches : Option ℕ → What → Option Obj → List Obj → Decoded Obj
  unfolding decode_place
  decode_switches current w nv [] = decode_place current w nv []
  decode_switches current w nv (o ∷ []) = elim (get_index switches o) [
    | none ↦ decode_place current w nv (o ∷ [])
    | some _ ↦ wrong no_value_given
  ]
  decode_switches current w nv (o ∷ v ∷ rest) =
      let more = decode_switches current w (some v) rest in
      elim (get_index switches o) [
        | none ↦ decode_place current w nv (o ∷ v ∷ rest)
        | some _ ↦ more
      ]

  unfoldable pub decode : Option ℕ → List Obj → Decoded Obj
  unfolding decode_switches
  decode current [] = decode_place current data_ none []
  decode current (o ∷ rest) = elim (get_index sub_cmds o) [
    | none ↦ decode_switches current data_ none (o ∷ rest)
    | some i ↦ decode_switches current (what_of i) none rest
  ]

  -- `while (dbdata->tuple < ituple)`, by the rounds that are left.
  unfoldable pub advance : ℕ → ℕ → Stmt → State (Session Obj) Place
  advance zero t stmt s = (arrived, s)
  advance (suc k) t stmt s =
      let after = (call (step stmt) s).1 in
      let more =
        advance k (suc t) stmt (record after { own = record s.own { tuple = some (suc t) } }) in
      elim (step_result s.calls stmt) [
        | row ↦ more
        | done ↦ (out_of_position, record after { own = record s.own { ntuples = some t } })
        | _ ↦ (broken, after)
      ]

  -- A first fetch is on line 0, where exec's own step left the statement.
  unfoldable pub position : Option ℕ → State (Session Obj) Place
  unfolding advance
  position ituple s =
      let t = line_or_zero s.own.tuple in
      let target = target_of s.own.tuple ituple in
      let s0 = record s { own = record s.own { tuple = some t } } in
      if past_end s.own.ntuples target
      then (out_of_position, s0)
      else if target == t
      then (arrived, s0)
      else if ltb target t
      then (backward, s0)
      else advance (target - t) t s.own.stmt s0

  -- A field outside the row has no defined value in SQLite.
  abbrev field_at : ℤ → List Value → Option Value
  field_at (pos i) vs = get_elem? vs i
  field_at (negsuc i) vs = none

  abbrev whole_line : Option Obj → List Value → Fetched Obj
  whole_line nv vs = elim (get_row nv vs) [ none ↦ fault | some os ↦ ok (some (new_list os)) ]

  abbrev or_value : Obj → Option Obj → Obj
  or_value nv none = nv
  or_value nv (some o) = o

  abbrev one_field : Obj → Option Value → Fetched Obj
  one_field nv none = fault
  one_field nv (some v) = ok (some (or_value nv (result_field v)))

  abbrev null_flag : Option Value → Fetched Obj
  null_flag none = fault
  null_flag (some null) = ok (some (new_int (pos 1)))
  null_flag (some _) = ok (some (new_int (pos 0)))

  -- names and values in turn
  abbrev pub interleave : List Bytes → List Obj → List Obj
  interleave [] os = []
  interleave (n ∷ ns) [] = []
  interleave (n ∷ ns) (o ∷ os) = new_string n ∷ o ∷ interleave ns os

  abbrev as_array : Option (List Bytes) → Obj → List Value → Fetched Obj
  as_array none nv vs = ok none
  as_array (some ns) nv vs = elim (get_row (some nv) vs) [
    | none ↦ fault
    | some os ↦ ok (some (new_list (interleave ns os)))
  ]

  data_result : ℤ → Obj → List Value → Fetched Obj
  data_result (negsuc zero) nv vs = whole_line (some nv) vs
  data_result z nv vs = one_field nv (field_at z vs)

  -- The line as it is asked for.
  deliver : What → ℤ → Obj → Pending → List Value → Fetched Obj
  unfolding data_result
  deliver isnull z nv p vs = null_flag (field_at z vs)
  deliver array z nv p vs = as_array p.resultfields nv vs
  deliver _ z nv p vs = data_result z nv vs

  placed : Request Obj → ℕ → Place → State (Session Obj) (Fetched Obj)
  unfolding deliver
  placed r nfields out_of_position s =
      (error (line_out_of_range (pos (next_line s.own.ntuples))), s)
  placed r nfields backward s = (error backwards, s)
  placed r nfields broken s = (error database_error, s)
  placed r nfields arrived s =
      if at_least r.ifield nfields then (error (field_out_of_range r.ifield), s) else (
        deliver r.what r.ifield (or_value s.defnullvalue r.null_value) s.own
            (column_values s.calls s.own.stmt),
        s,
      )

  fetch_what : What → Request Obj → ℕ → State (Session Obj) (Fetched Obj)
  unfolding placed
  fetch_what lines r nfields s = (error lines_not_supported, s)
  fetch_what fields r nfields s = (
    ok (elim s.own.resultfields [ none ↦ none | some ns ↦ some (new_list (map new_string ns)) ]),
    s,
  )
  fetch_what pos_ r nfields s = (ok (some (new_int (as_int s.own.tuple))), s)
  fetch_what _ r nfields s =
      let placed_at = position r.ituple s in placed r nfields placed_at.0 placed_at.1

  fetch_decoded : Decoded Obj → ℕ → State (Session Obj) (Fetched Obj)
  unfolding fetch_what
  fetch_decoded (wrong e) nfields s = (error e, s)
  fetch_decoded (request r) nfields s = fetch_what r.what r nfields s

  -- dbi_Sqlite3_Fetch, on the words after `fetch`
  unfoldable pub fetch : List Obj → State (Session Obj) (Fetched Obj)
  unfolding fetch_decoded
  fetch objv s = elim s.own.nfields [
    | none ↦ (error no_result, s)
    | some nfields ↦ fetch_decoded (decode s.own.tuple objv) nfields s
  ]
