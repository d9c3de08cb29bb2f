-- ===== src/Sqlite3/Lifecycle.antt =====
-- The life of a database object of sqlite3/generic/sqlite.c and of its clones: New, Open, Createdb,
-- Clone, Close, Dropdb and Destroy, behind the tests of DbObjCmd. A clone is known by a number.
pub mod Clones
pub mod Tests
use tcl_dbi.Base.{
  ℕ, zero, suc, Bool, true, false, not, Option, none, some, List, [], ◌∷◌, ◌==◌, ◌||◌, length,
  if◌then◌else◌,
}

-- `db`: NULL, a connection, and a handle that sqlite3_close has freed.
pub data Handle : Type 0 where
  no_handle connected freed : Handle

-- An object that is no clone: `clones` is its array, of `clonesnum` entries, and `commands` are the
-- clones that there are as commands, with `database != NULL`.
pub record Object : Type 0 where
  pub db : Handle
  pub has_database : Bool
  pub clones : List ℕ
  pub commands : List (ℕ × Bool)

-- TCL_OK, TCL_ERROR, a use of what was freed (or a count below 0), and a loop that does not end.
pub data Done : Type 0 where
  done failed : Object → Done
  crashed endless : Done

-- Dbi_sqlite3_DoNewDbObjCmd
unfoldable pub new_object : Object
new_object = record { db = no_handle; has_database = false; clones = []; commands = [] }

abbrev pub has_handle : Handle → Bool
has_handle no_handle = false
has_handle _ = true

-- dbi_Sqlite3_Open; `opens` is what sqlite3_open answers. The handle of a failed one is closed.
unfoldable pub open_database : Bool → Object → Done
open_database opens o =
    if has_handle o.db
    then failed o
    else if opens
    then done (record o { db = connected; has_database = true })
    else failed (record o { db = freed; has_database = false })

-- dbi_Sqlite3_Createdb; `known` tells whether each option is known.
unfoldable pub create_database : Bool → Bool → Object → Done
create_database opens known o =
    if has_handle o.db
    then failed o
    else if not opens
    then failed (record o { db = freed; has_database = false })
    else if known
    then done (record o { db = no_handle; has_database = true })
    else failed (record o { db = no_handle; has_database = true })

abbrev pub add_last {ℓ} : {A : Type ℓ} → A → List A → List A
add_last n [] = n ∷ []
add_last n (m ∷ ms) = m ∷ add_last n ms

abbrev pub is_command : ℕ → List (ℕ × Bool) → Bool
is_command n [] = false
is_command n ((m, d) ∷ cs) = (m == n) || is_command n cs

-- Dbi_sqlite3_Clone: the clone takes the connection and the database of its parent.
unfoldable pub clone : ℕ → Object → Done
clone n o =
    if not (has_handle o.db)
    then failed o
    else done (record o {
      clones = add_last n o.clones;
      commands = add_last (n, o.has_database) o.commands;
    })

abbrev cons_to : ℕ → Option (List ℕ) → Option (List ℕ)
cons_to m none = none
cons_to m (some l) = some (m ∷ l)

-- The loop of dbi_Sqlite3_Close that takes a clone out of its parent's array: the entries behind it
-- move up, and the count goes down by one, found or not.
abbrev pub shift_up : ℕ → List ℕ → Option (List ℕ)
shift_up n [] = none
shift_up n (m ∷ []) = some []
shift_up n (m ∷ k ∷ ms) =
    let rest = shift_up n (k ∷ ms) in if m == n then some (k ∷ ms) else cons_to m rest

-- The command is deleted: its `database != NULL`, if there is such a command, and the others.
abbrev pub take_command : ℕ → List (ℕ × Bool) → Option Bool × List (ℕ × Bool)
take_command n [] = (none, [])
take_command n ((m, d) ∷ cs) =
    let rest = take_command n cs in if m == n then (some d, cs) else (rest.0, (m, d) ∷ rest.1)

abbrev with_clones : Object → Option (List ℕ) → Done
with_clones o none = crashed
with_clones o (some l) = done (record o { clones = l })

-- dbi_Sqlite3_Destroy of a clone, and with it dbi_Sqlite3_Close
abbrev pub destroyed : ℕ → Object → Option Bool → Done
destroyed n o none = crashed
destroyed n o (some false) = done o
destroyed n o (some true) = with_clones o (shift_up n o.clones)

unfoldable pub destroy_clone : ℕ → Object → Done
destroy_clone n o =
    let taken = take_command n o.commands in destroyed n (record o { commands = taken.1 }) taken.0

abbrev pub after : Done → (Object → Done) → Done
after (done o) next = next o
after (failed o) next = next o
after crashed next = crashed
after endless next = endless

-- `while (dbdata->clonesnum)`: the command of the first of the object's clones is deleted.
unfoldable pub close_clones : ℕ → List ℕ → Object → Done
unfolding destroy_clone
close_clones f [] o = done o
close_clones zero (n ∷ ns) o = endless
close_clones (suc f) (n ∷ ns) o = after (destroy_clone n o) λ o'. close_clones f o'.clones o'

abbrev pub let_go : Handle → Object → Done
let_go freed o = crashed
let_go _ o = done (record o { db = no_handle; has_database = false })

-- dbi_Sqlite3_Close of an object that is no clone; each round but the last deletes a clone.
unfoldable pub close_object : Object → Done
unfolding close_clones
close_object o = after (close_clones (length o.clones) o.clones o) λ o'. let_go o'.db o'

-- dbi_Sqlite3_Dropdb; the file is deleted by Tcl.
unfoldable pub drop_database : Object → Done
unfolding close_object
drop_database o = if has_handle o.db then close_object o else failed o

-- dbi_Sqlite3_Destroy of an object that is no clone
unfoldable pub destroy : Object → Done
unfolding close_object
destroy o = if o.has_database then close_object o else done o
