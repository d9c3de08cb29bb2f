-- ===== src/Tcl.antt =====
-- What the backends sqlite, mysql and postgresql call of Tcl's value functions: a parameter.
use tcl_dbi.Base.{ℕ, Option, List}
use tcl_dbi.Base.Int.{ℤ}
use tcl_dbi.Memory.{Bytes}

pub record Tcl : Type 1 where
  pub Obj : Type 0
  pub string : Obj → Bytes
  -- Tcl_GetIntFromObj, Tcl_GetIndexFromObj (the place in a table of words), Tcl_ListObjGetElements
  pub get_int : Obj → Option ℤ
  pub get_index : List Bytes → Obj → Option ℕ
  pub elements : Obj → Option (List Obj)
