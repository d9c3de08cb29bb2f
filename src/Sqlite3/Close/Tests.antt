-- ===== src/Sqlite3/Close/Tests.antt =====
-- Closing an object, at concrete arguments.
use tcl_dbi.Base.{◌≡◌, refl, true, some, [], ◌∷◌}
use tcl_dbi.Memory.{codes}
use tcl_dbi.Sqlite3.Host.{History, close}
use tcl_dbi.Sqlite3.Session.{Session}
use tcl_dbi.Sqlite3.Close.{close_alone}
use tcl_dbi.Sqlite3.Close.Finalized.{finalized, close_alone-finalized}
use tcl_dbi.Sqlite3.Tests.{Words, fresh, pending}

abbrev cached : Session Words
cached = record fresh { cache = (codes "select 1", some 7) ∷ (codes "select 2", some 8) ∷ [] }

close_alone-finalized_example :
    (calls : History) × ((close_alone cached).1.calls ≡ close ∷ calls)
    × (finalized 8 calls ≡ true)
    × ((close_alone cached).1.cache ≡ [])
close_alone-finalized_example = close_alone-finalized 8 cached refl refl

-- A pending result of `exec -cache`, whose statement is in the cache.
abbrev cached_pending : Session Words
cached_pending = record pending {
  cache = (codes "select 1", some 7) ∷ [];
  own = record pending.own { cached = true };
}
