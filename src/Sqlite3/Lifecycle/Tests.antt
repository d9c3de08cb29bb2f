-- ===== src/Sqlite3/Lifecycle/Tests.antt =====
-- Lives of an object and its clones.
use tcl_dbi.Base.{◌≡◌, refl, true, false, [], ◌∷◌, map}
use tcl_dbi.Sqlite3.Lifecycle.{
  Object, done, crashed, connected, no_handle, new_object, open_database, clone, destroy_clone,
  close_object, after,
}
use tcl_dbi.Sqlite3.Lifecycle.Clones.{
  Reachable, at_new, by_open, by_clone, by_close_clone, Reachable-closes,
}

-- An open object with clones 1 and 2, of which 1 is closed.
abbrev with_clone : Object
with_clone = record {
  db = connected;
  has_database = true;
  clones = 2 ∷ [];
  commands = (2, true) ∷ [];
}

with_clone-Reachable : Reachable with_clone
unfolding new_object open_database clone destroy_clone
with_clone-Reachable =
    by_close_clone 1 refl (by_clone 2 refl (by_clone 1 refl (by_open at_new refl) refl) refl) refl

Reachable-closes_example :
    (with_clone.commands ≡ map (λ n. (n, true)) with_clone.clones)
    × (close_object with_clone
        ≡ done (record { db = no_handle; has_database = false; clones = []; commands = [] }))
Reachable-closes_example = Reachable-closes with_clone with_clone-Reachable

-- After an open that fails the handle is freed, but not NULL: a clone can be made, its command goes
-- away without leaving the array, and closing then follows what is freed.
after_failed_open :
    after (after (after (open_database false new_object) (clone 1)) (destroy_clone 1)) close_object
    ≡ crashed
unfolding new_object open_database clone destroy_clone close_object
after_failed_open = refl
