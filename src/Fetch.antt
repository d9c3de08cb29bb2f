-- ===== src/Fetch.antt =====
-- The arguments of fetch. The backends sqlite, mysql and postgresql decode them by the same code, the
-- first half of dbi_Sqlite_Fetch (sqlite/generic/sqlite.c), dbi_Mysql_Fetch (mysql/generic/mysql.c)
-- and dbi_Postgresql_Fetch (postgresql/generic/postgresql.c); they differ in the subcommands.
use tcl_dbi.Base.{ℕ, suc, Bool, false, Option, none, some, List, [], ◌∷◌, if◌then◌else◌, leb}
use tcl_dbi.Base.Int.{ℤ, pos, negsuc}
use tcl_dbi.Memory.{bytes_eq, Bytes, codes}
use tcl_dbi.Tcl.{Tcl}

-- `subCmds` and `switches`
abbrev pub sub_cmds : List Bytes
sub_cmds =
    codes "data"
    ∷ codes "lines"
    ∷ codes "pos"
    ∷ codes "fields"
    ∷ codes "isnull"
    ∷ codes "array"
    ∷ []

abbrev pub postgresql_sub_cmds : List Bytes
postgresql_sub_cmds =
    codes "data"
    ∷ codes "lines"
    ∷ codes "pos"
    ∷ codes "fields"
    ∷ codes "clear"
    ∷ codes "isnull"
    ∷ []

abbrev switches : List Bytes
switches = codes "-nullvalue" ∷ []

pub data FetchError : Type 0 where
  no_result no_value_given wrong_arguments not_an_int not_a_list : FetchError
  line_out_of_range field_out_of_range : ℤ → FetchError

-- The line, `none` for the next one (-1), and the field, -1 for all; `option` is the subcommand's
-- place.
pub record Request (Obj : Type 0) : Type 0 where
  pub option : ℕ
  pub null_value : Option Obj
  pub ituple : Option ℕ
  pub ifield : ℤ

pub data Decoded (Obj : Type 0) : Type 0 where
  wrong : FetchError → Decoded Obj
  request : Request Obj → Decoded Obj

-- The current line, `none` for -1.
abbrev pub as_int : Option ℕ → ℤ
as_int none = negsuc 0
as_int (some n) = pos n

abbrev pub next_line : Option ℕ → ℕ
next_line none = 0
next_line (some t) = suc t

abbrev pub target_of : Option ℕ → Option ℕ → ℕ
target_of current none = next_line current
target_of current (some n) = n

-- ifield >= nfields
abbrev pub at_least : ℤ → ℕ → Bool
at_least (pos i) n = leb n i
at_least (negsuc i) n = false

module _ ⦃tcl : Tcl⦄ where
  open tcl use {Obj, string, get_int, get_index}

  -- A negative line is out of range.
  abbrev line_of : ℤ → (ℕ → Decoded Obj) → Decoded Obj
  line_of (negsuc n) next = wrong (line_out_of_range (negsuc n))
  line_of (pos n) next = next n

  decode_line : Option ℕ → Obj → (ℕ → Decoded Obj) → Decoded Obj
  decode_line current o next =
      if bytes_eq (string o) (codes "current")
      then line_of (as_int current) next
      else elim (get_int o) [ none ↦ wrong not_an_int | some z ↦ line_of z next ]

  decode_field : Option Obj → (ℤ → Decoded Obj) → Decoded Obj
  decode_field none next = next (negsuc 0)
  decode_field (some f) next = elim (get_int f) [ none ↦ wrong not_an_int | some z ↦ next z ]

  decode_place : Option ℕ → ℕ → Option Obj → List Obj → Decoded Obj
  unfolding decode_line decode_field
  decode_place current w nv [] =
      request (record { option = w; null_value = nv; ituple = none; ifield = negsuc 0 })
  decode_place current w nv (l ∷ []) = decode_line current l λ n.
      decode_field none
        λ z. request (record { option = w; null_value = nv; ituple = some n; ifield = z })
  decode_place current w nv (l ∷ f ∷ []) = decode_line current l λ n.
      decode_field (some f)
        λ z. request (record { option = w; null_value = nv; ituple = some n; ifield = z })
  decode_place current w nv (l ∷ f ∷ _ ∷ _) = wrong wrong_arguments

  -- The switches, up to the first word that is none.
  decode_switches : Option ℕ → ℕ → Option Obj → List Obj → Decoded Obj
  unfolding decode_place
  decode_switches current w nv [] = decode_place current w nv []
  decode_switches current w nv (o ∷ []) = elim (get_index switches o) [
    | none ↦ decode_place current w nv (o ∷ [])
    | some _ ↦ wrong no_value_given
  ]
  decode_switches current w nv (o ∷ v ∷ rest) =
      let more = decode_switches current w (some v) rest in
      elim (get_index switches o) [
        | none ↦ decode_place current w nv (o ∷ v ∷ rest)
        | some _ ↦ more
      ]

  -- The arguments behind `fetch`; a first word that is no subcommand is an argument of `data`.
  unfoldable pub decode : List Bytes → Option ℕ → List Obj → Decoded Obj
  unfolding decode_switches
  decode words current [] =
      request (record { option = 0; null_value = none; ituple = none; ifield = negsuc 0 })
  decode words current (o ∷ os) = elim (get_index words o) [
    | none ↦ decode_switches current 0 none (o ∷ os)
    | some w ↦ decode_switches current w none os
  ]
