-- ===== src/Sqlite3/Lifecycle/Clones.antt =====
-- The array of clones and their commands in every state that can be reached.
use mathlib.Core.Path.{ap₂}
use tcl_dbi.Base.{
  ℕ, ◌≡◌, refl, sym, ap, ◌∙◌, subst, Bool, true, false, some, List, [], ◌∷◌, ◌==◌, length, map,
  if◌then◌else◌, arith, ◌⊎◌, inl, inr, Bool-cases, ==_self,
}
use tcl_dbi.Sqlite3.Lifecycle.{
  no_handle, connected, Object, Done, done, failed, crashed, endless, new_object, has_handle,
  open_database, create_database, add_last, is_command, clone, shift_up, take_command,
  destroy_clone, after, close_clones, close_object, drop_database, let_go,
}

-- The object behind a call that ends.
abbrev pub After : Done → Object → Type 0
After (done o) p = o ≡ p
After (failed o) p = o ≡ p
After crashed p = ⊥
After endless p = ⊥

-- The states that calls lead to, where sqlite3_open does not fail: a clone has a new name, and is
-- closed while it is there.
pub data Reachable : Object → Type 0 where
  at_new : Reachable new_object
  by_open : {o p : Object} → Reachable o → After (open_database true o) p → Reachable p
  by_create :
      {o p : Object} (known : Bool)
      → Reachable o
      → After (create_database true known o) p
      → Reachable p
  by_clone :
      {o p : Object} (n : ℕ)
      → is_command n o.commands ≡ false
      → Reachable o
      → After (clone n o) p
      → Reachable p
  by_close_clone :
      {o p : Object} (n : ℕ)
      → is_command n o.commands ≡ true
      → Reachable o
      → After (destroy_clone n o) p
      → Reachable p
  by_close : {o p : Object} → Reachable o → After (close_object o) p → Reachable p
  by_drop : {o p : Object} → Reachable o → After (drop_database o) p → Reachable p

abbrev pub alive : List ℕ → List (ℕ × Bool)
alive ns = map (λ n. (n, true)) ns

abbrev without : ℕ → List ℕ → List ℕ
without n [] = []
without n (m ∷ ms) = if m == n then ms else m ∷ without n ms

-- The commands are those of the array, each with a database; without a connection there is none.
abbrev pub Sound : Object → Type 0
Sound o =
    (o.commands ≡ alive o.clones)
    × (((o.db ≡ connected) × (o.has_database ≡ true)) ⊎ ((o.db ≡ no_handle) × (o.clones ≡ [])))

add_last-alive : (n : ℕ) (ns : List ℕ) → add_last (n, true) (alive ns) ≡ alive (add_last n ns)
add_last-alive n [] = refl
add_last-alive n (m ∷ ms) = ap (λ l. (m, true) ∷ l) (add_last-alive n ms)

take_command-alive :
    (n : ℕ) (ns : List ℕ)
    → is_command n (alive ns) ≡ true
    → (take_command n (alive ns) ≡ (some true, alive (without n ns)))
      × (shift_up n ns ≡ some (without n ns))
take_command-alive n [] h = absurd (ground arith)
take_command-alive n (m ∷ []) h = let e : (m == n) ≡ true = ground arith in rw e (refl, refl)
take_command-alive n (m ∷ k ∷ ms) h = elim (Bool-cases (m == n)) [
  | inl e ↦ rw e (refl, refl)
  | inr e ↦ let (a, b) = take_command-alive n (k ∷ ms) (ground arith) in rw (e, a, b) (refl, refl)
]

is_command-first : (n : ℕ) (ns : List ℕ) → is_command n (alive (n ∷ ns)) ≡ true
is_command-first n ns = rw (==_self n) refl

-- A clone that is there is closed.
destroy_clone-alive :
    (n : ℕ) (o : Object)
    → o.commands ≡ alive o.clones
    → is_command n o.commands ≡ true
    → destroy_clone n o
      ≡ done (record o { clones = without n o.clones; commands = alive (without n o.clones) })
unfolding destroy_clone
destroy_clone-alive n o e h =
    let there : is_command n (alive o.clones) ≡ true = rw (sym e) h in
    let (a, b) = take_command-alive n o.clones there in rw (e, a, b) refl

without-first : (n : ℕ) (ns : List ℕ) → without n (n ∷ ns) ≡ ns
without-first n ns = rw (==_self n) refl

-- The loop of Close deletes them all.
close_clones-alive :
    (ns : List ℕ) (o : Object)
    → o.commands ≡ alive ns
    → o.clones ≡ ns
    → close_clones (length ns) ns o ≡ done (record o { clones = []; commands = [] })
unfolding close_clones
close_clones-alive [] o e k =
    ap (λ (l : List ℕ × List (ℕ × Bool)). done (record o { clones = l.0; commands = l.1 }))
      (ap₂ (λ a b. (a, b)) k e)
close_clones-alive (n ∷ ns) o e k =
    let same : o.commands ≡ alive o.clones = e ∙ ap alive (sym k) in
    let there : is_command n o.commands ≡ true = rw e (is_command-first n ns) in
    let o' = record o { clones = without n o.clones; commands = alive (without n o.clones) } in
    let left : without n o.clones ≡ ns = ap (without n) k ∙ without-first n ns in
    ap (λ d. after d (λ o'. close_clones (length ns) o'.clones o'))
      (destroy_clone-alive n o same there)
    ∙ ap (λ l. close_clones (length ns) l (record o { clones = l; commands = alive l })) left
    ∙ close_clones-alive ns (record o { clones = ns; commands = alive ns }) refl refl

not_freed :
    (o : Object)
    → Sound o
    → let_go o.db (record o { clones = []; commands = [] })
      ≡ done (record { db = no_handle; has_database = false; clones = []; commands = [] })
not_freed o (e, inl (c, d)) = rw c refl
not_freed o (e, inr (c, d)) = rw c refl

pub close_object-Sound :
    (o : Object)
    → Sound o
    → close_object o
      ≡ done (record { db = no_handle; has_database = false; clones = []; commands = [] })
unfolding close_object
close_object-Sound o s =
    ap (λ d. after d (λ o'. let_go o'.db o')) (close_clones-alive o.clones o s.0 refl)
    ∙ not_freed o s

abbrev closed : Object
closed = record { db = no_handle; has_database = false; clones = []; commands = [] }

-- A call of which the end is known.
by_done : (d : Done) (o p : Object) → d ≡ done o → Sound o → After d p → Sound p
by_done d o p e s a = subst Sound (subst (λ d. After d p) e a) s

by_failed : (d : Done) (o p : Object) → d ≡ failed o → Sound o → After d p → Sound p
by_failed d o p e s a = subst Sound (subst (λ d. After d p) e a) s

no_commands : (o : Object) → o.commands ≡ alive o.clones → o.clones ≡ [] → o.commands ≡ []
no_commands o e k = e ∙ ap alive k

open-Sound : (o p : Object) → Sound o → After (open_database true o) p → Sound p
unfolding open_database
open-Sound o p (e, inl (c, d)) = by_failed (open_database true o) o p (rw c refl) (e, inl (c, d))
open-Sound o p (e, inr (c, d)) =
    by_done (open_database true o) (record o { db = connected; has_database = true }) p (rw c refl)
      (e, inl (refl, refl))

create-Sound :
    (known : Bool) (o p : Object) → Sound o → After (create_database true known o) p → Sound p
unfolding create_database
create-Sound known o p (e, inl (c, d)) =
    by_failed (create_database true known o) o p (rw c refl) (e, inl (c, d))
create-Sound true o p (e, inr (c, d)) =
    by_done (create_database true true o) (record o { db = no_handle; has_database = true }) p
      (rw c refl) (e, inr (refl, d))
create-Sound false o p (e, inr (c, d)) =
    by_failed (create_database true false o) (record o { db = no_handle; has_database = true }) p
      (rw c refl) (e, inr (refl, d))

clone-Sound : (n : ℕ) (o p : Object) → Sound o → After (clone n o) p → Sound p
unfolding clone
clone-Sound n o p (e, inl (c, d)) =
    by_done (clone n o)
      (record o { clones = add_last n o.clones; commands = add_last (n, true) o.commands }) p
      (rw (c, d) refl) (ap (add_last (n, true)) e ∙ add_last-alive n o.clones, inl (c, d))
clone-Sound n o p (e, inr (c, d)) = by_failed (clone n o) o p (rw c refl) (e, inr (c, d))

close_clone-Sound :
    (n : ℕ) (o p : Object)
    → is_command n o.commands ≡ true
    → Sound o
    → After (destroy_clone n o) p
    → Sound p
close_clone-Sound n o p h (e, s) =
    by_done (destroy_clone n o)
      (record o { clones = without n o.clones; commands = alive (without n o.clones) }) p
      (destroy_clone-alive n o e h) (refl, left s)
  where
    left :
        ((o.db ≡ connected) × (o.has_database ≡ true)) ⊎ ((o.db ≡ no_handle) × (o.clones ≡ []))
        → ((o.db ≡ connected) × (o.has_database ≡ true))
          ⊎ ((o.db ≡ no_handle) × (without n o.clones ≡ []))
    left (inl s) = inl s
    left (inr (c, d)) = inr (c, ap (without n) d)

close-Sound : (o p : Object) → Sound o → After (close_object o) p → Sound p
close-Sound o p s =
    by_done (close_object o) closed p (close_object-Sound o s) (refl, inr (refl, refl))

drop-Sound : (o p : Object) → Sound o → After (drop_database o) p → Sound p
unfolding drop_database
drop-Sound o p (e, inl (c, d)) =
    by_done (drop_database o) closed p
      (ap (λ h. if has_handle h then close_object o else failed o) c
        ∙ close_object-Sound o (e, inl (c, d)))
      (refl, inr (refl, refl))
drop-Sound o p (e, inr (c, d)) = by_failed (drop_database o) o p (rw c refl) (e, inr (c, d))

Reachable-Sound : {o : Object} → Reachable o → Sound o
unfolding new_object
Reachable-Sound at_new = (refl, inr (refl, refl))
Reachable-Sound (by_open {o} {p} r a) = open-Sound o p (Reachable-Sound r) a
Reachable-Sound (by_create {o} {p} known r a) = create-Sound known o p (Reachable-Sound r) a
Reachable-Sound (by_clone {o} {p} n h r a) = clone-Sound n o p (Reachable-Sound r) a
Reachable-Sound (by_close_clone {o} {p} n h r a) = close_clone-Sound n o p h (Reachable-Sound r) a
Reachable-Sound (by_close {o} {p} r a) = close-Sound o p (Reachable-Sound r) a
Reachable-Sound (by_drop {o} {p} r a) = drop-Sound o p (Reachable-Sound r) a

-- In each state that can be reached by opening, creating, cloning, closing and dropping, where no
-- sqlite3_open fails, the array of clones holds exactly the clones that there are, in their order,
-- and closing the object ends: it deletes them all and lets the connection go.
pub Reachable-closes :
    (o : Object)
    → Reachable o
    → (o.commands ≡ map (λ n. (n, true)) o.clones)
      × (close_object o
          ≡ done (record { db = no_handle; has_database = false; clones = []; commands = [] }))
Reachable-closes o r = let s = Reachable-Sound r in (s.0, close_object-Sound o s)
