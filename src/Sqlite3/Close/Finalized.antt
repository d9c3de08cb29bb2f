-- ===== src/Sqlite3/Close/Finalized.antt =====
-- Which statements are finalized when the connection is closed.
use tcl_dbi.Base.{
  ℕ, ◌≡◌, refl, subst, sym, if◌then◌else◌, ==_iff, Bool-cases, inl, inr, Bool, true, false, none,
  some, List, [], ◌∷◌, ◌==◌, ◌||◌, arith,
}
use tcl_dbi.Sqlite3.Host.{Stmt, History, finalize, close}
use tcl_dbi.Sqlite3.Session.{Session, Pending, Cache, clear_result, clear_pending, clear_each}
use tcl_dbi.Sqlite3.Close.{is_stmt, in_use, clear_entry, clear_entries, close_alone}

-- Statement `n` was finalized.
abbrev pub finalized : ℕ → History → Bool
finalized n [] = false
finalized n (finalize (some m) ∷ cs) = (m == n) || finalized n cs
finalized n (_ ∷ cs) = finalized n cs

-- Statement `n` is in the cache.
abbrev pub cached_in : ℕ → Cache → Bool
cached_in n [] = false
cached_in n ((sql, stmt) ∷ rest) = is_stmt stmt n || cached_in n rest

clear_entry-keeps :
    (n : ℕ) (p : Pending) (stmt : Stmt) (calls : History)
    → finalized n calls ≡ true
    → finalized n (clear_entry p stmt calls) ≡ true
unfolding clear_entry
clear_entry-keeps n p none calls h = h
clear_entry-keeps n p (some m) calls h = ground arith

clear_entries-keeps :
    (n : ℕ) (p : Pending) (cache : Cache) (calls : History)
    → finalized n calls ≡ true
    → finalized n (clear_entries p cache calls) ≡ true
unfolding clear_entries
clear_entries-keeps n p [] calls h = h
clear_entries-keeps n p ((sql, stmt) ∷ rest) calls h =
    clear_entries-keeps n p rest _ (clear_entry-keeps n p stmt calls h)

clear_entry-finalized :
    (n : ℕ) (p : Pending) (stmt : Stmt) (calls : History)
    → in_use p n ≡ false
    → is_stmt stmt n ≡ true
    → finalized n (clear_entry p stmt calls) ≡ true
unfolding clear_entry
clear_entry-finalized n p none calls h e = cc
clear_entry-finalized n p (some m) calls h e = ground arith

clear_entries-finalized :
    (n : ℕ) (p : Pending) (cache : Cache) (calls : History)
    → in_use p n ≡ false
    → cached_in n cache ≡ true
    → finalized n (clear_entries p cache calls) ≡ true
unfolding clear_entries
clear_entries-finalized n p [] calls h e = cc
clear_entries-finalized n p ((sql, stmt) ∷ rest) calls h e = elim (Bool-cases (is_stmt stmt n)) [
  | inl f ↦ clear_entries-keeps n p rest _ (clear_entry-finalized n p stmt calls h f)
  | inr f ↦ clear_entries-finalized n p rest _ h (rw f at e)
]

clear_pending-keeps :
    (n : ℕ) (p : Pending) (calls : History)
    → finalized n calls ≡ true
    → finalized n (clear_pending p calls).1 ≡ true
unfolding clear_pending
clear_pending-keeps n p calls h = ground arith

clear_each-keeps :
    (n : ℕ) (ps : List Pending) (calls : History)
    → finalized n calls ≡ true
    → finalized n (clear_each ps calls).1 ≡ true
unfolding clear_each
clear_each-keeps n [] calls h = h
clear_each-keeps n (p ∷ ps) calls h = clear_each-keeps n ps _ (clear_pending-keeps n p calls h)

module _ {Obj : Type 0} (n : ℕ) (s : Session Obj) where
  -- When an object without clones is closed, each statement of its cache is finalized before the
  -- connection is closed, except for the statement that the state of the object names as its cached
  -- one: that of an `exec -cache` with a pending result, and also that of an `exec -cache` whose
  -- result is complete or cleared, since the state goes on naming it.
  pub close_alone-finalized :
      in_use s.own n ≡ false
      → cached_in n s.cache ≡ true
      → (calls : History) × ((close_alone s).1.calls ≡ close ∷ calls)
        × (finalized n calls ≡ true)
        × ((close_alone s).1.cache ≡ [])
  unfolding close_alone clear_result
  close_alone-finalized h e = (
    _,
    refl,
    clear_pending-keeps n s.own _
        (clear_each-keeps n s.clones _ (clear_entries-finalized n s.own s.cache s.calls h e)),
    refl,
  )

clear_entry-spares :
    (n : ℕ) (p : Pending) (stmt : Stmt) (calls : History)
    → in_use p n ≡ true
    → finalized n calls ≡ false
    → finalized n (clear_entry p stmt calls) ≡ false
unfolding clear_entry
clear_entry-spares n p none calls h e = e
clear_entry-spares n p (some m) calls h e = elim (Bool-cases (m == n)) [
  | inl f ↦
      subst (λ k. finalized n (if in_use p k then calls else finalize (some k) ∷ calls) ≡ false)
        (sym ((==_iff m n).0 f)) (rw h e)
  | inr f ↦ ground arith
]

clear_entries-spares :
    (n : ℕ) (p : Pending) (cache : Cache) (calls : History)
    → in_use p n ≡ true
    → finalized n calls ≡ false
    → finalized n (clear_entries p cache calls) ≡ false
unfolding clear_entries
clear_entries-spares n p [] calls h e = e
clear_entries-spares n p ((sql, stmt) ∷ rest) calls h e =
    clear_entries-spares n p rest _ h (clear_entry-spares n p stmt calls h e)

clear_pending-spares :
    (n : ℕ) (p : Pending) (calls : History)
    → in_use p n ≡ true
    → finalized n calls ≡ false
    → finalized n (clear_pending p calls).1 ≡ false
unfolding clear_pending
clear_pending-spares n p calls h e = ground arith

-- When an object without clones is closed while a result of `exec -cache` is pending, the statement
-- of this result is not finalized at all, though the connection is closed and the cache is empty.
close_alone-spares :
    {Obj : Type 0} (n : ℕ) (s : Session Obj)
    → in_use s.own n ≡ true
    → s.clones ≡ []
    → finalized n s.calls ≡ false
    → (finalized n (close_alone s).1.calls ≡ false) × ((close_alone s).1.cache ≡ [])
unfolding close_alone clear_result clear_each
close_alone-spares n s h c e =
    rw c (clear_pending-spares n s.own _ h (clear_entries-spares n s.own s.cache s.calls h e), refl)
