-- ===== src/Sqlite3/Clean.antt =====
-- The state in which a handler leaves the statements: reset, with no parameter bound.
use tcl_dbi.Base.{
  ℕ, ◌≡◌, refl, Bool, true, false, none, some, List, [], ◌∷◌, ◌==◌, arith, if◌then◌else◌,
}
use tcl_dbi.Memory.{Bytes}
use tcl_dbi.Sqlite3.Host.{Host, Stmt, History, reset, clear_bindings, step, finalize, bind}
use tcl_dbi.Sqlite3.Session.{
  Pending, Session, clear_pending, clear_each, clear_result, prepare_cached, release,
}

abbrev is : ℕ → Stmt → Bool
is n none = false
is n (some m) = n == m

-- Statement `n` was stepped after its last reset, or has a parameter bound since it was last cleared.
abbrev pub stepped : ℕ → History → Bool
stepped n [] = false
stepped n (step m ∷ cs) = if is n m then true else stepped n cs
stepped n (reset m ∷ cs) = if is n m then false else stepped n cs
stepped n (finalize m ∷ cs) = if is n m then false else stepped n cs
stepped n (_ ∷ cs) = stepped n cs

abbrev pub bound : ℕ → History → Bool
bound n [] = false
bound n (bind m i b ∷ cs) = if is n m then true else bound n cs
bound n (clear_bindings m ∷ cs) = if is n m then false else bound n cs
bound n (finalize m ∷ cs) = if is n m then false else bound n cs
bound n (_ ∷ cs) = bound n cs

abbrev pub Clean : ℕ → History → Type 0
Clean n cs = (stepped n cs ≡ false) × (bound n cs ≡ false)

-- Clean, unless it is the statement that the handler is using.
abbrev pub CleanBut : Stmt → ℕ → History → Type 0
CleanBut stmt n cs = is n stmt ≡ false → Clean n cs

module _ (n : ℕ) where
  clear_pending-Clean : (p : Pending) (cs : History) → Clean n cs → Clean n (clear_pending p cs).1
  unfolding clear_pending
  clear_pending-Clean p cs h = ground arith

  clear_each-Clean : (ps : List Pending) (cs : History) → Clean n cs → Clean n (clear_each ps cs).1
  unfolding clear_each
  clear_each-Clean [] cs h = h
  clear_each-Clean (p ∷ ps) cs h = clear_each-Clean ps _ (clear_pending-Clean p cs h)

  module _ {Obj : Type 0} (s : Session Obj) where
    pub clear_result-Clean : Clean n s.calls → Clean n (clear_result s).1.calls
    unfolding clear_result
    clear_result-Clean h = clear_pending-Clean s.own _ (clear_each-Clean s.clones s.calls h)

    pub release-Clean : (stmt : Stmt) → CleanBut stmt n s.calls → Clean n (release stmt s).1.calls
    release-Clean none h = h refl
    release-Clean (some m) h = ground (arith)

  module _ ⦃host : Host⦄ where
    open host use {Obj, prepare_result}

    pub prepare_cached-Clean :
        (sql : Bytes) (s : Session Obj) → Clean n s.calls → Clean n (prepare_cached sql s).1.calls
    unfolding prepare_cached
    prepare_cached-Clean sql s h = ground arith
