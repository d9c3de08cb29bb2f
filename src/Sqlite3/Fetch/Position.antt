-- ===== src/Sqlite3/Fetch/Position.antt =====
-- Where a fetch leaves the statement: the line that Tcl is told is the line that SQLite stands on.
use tcl_dbi.Base.{
  ℕ, zero, suc, ◌+◌, ◌-◌, ◌≡◌, ◌≢◌, refl, subst, sym, ap, ◌∙◌, Bool, true, false, Option, none,
  some, List, [], ◌∷◌, ◌==◌, ◌⊎◌, inl, inr, if◌then◌else◌, ltb, arith, Bool-cases, Option-cases,
}
use tcl_dbi.Base.Int.{ℤ}
use tcl_dbi.Sqlite3.Host.{
  Host, Stmt, StepCode, row, done, okay, failure, misuse, other, History, step,
}
use tcl_dbi.Sqlite3.Session.{Session}
use tcl_dbi.Sqlite3.Fetch.{
  error, database_error, line_out_of_range, Place, arrived, out_of_position, backward, broken,
  advance, position, placed, fetch, Request, Decoded, request, wrong, What, data_, lines, pos_,
  fields, isnull, array, fetch_what, fetch_decoded, decode, line_or_zero, target_of, past_end,
  at_least,
}

-- How often statement `n` was stepped.
abbrev pub steps_of : ℕ → History → ℕ
steps_of n [] = 0
steps_of n (step (some m) ∷ cs) = if n == m then suc (steps_of n cs) else steps_of n cs
steps_of n (_ ∷ cs) = steps_of n cs

-- After `base` steps statement `n` stood on line 0; it stands on the line `tuple` now, or, once the
-- number of lines is known, one step behind the last one.
abbrev pub Fits : ℕ → ℕ → Option ℕ → Option ℕ → ℕ → Type 0
Fits base line tuple none steps = steps ≡ base + line
Fits base line tuple (some m) steps = (m ≡ line) × (tuple ≡ some line) × (steps ≡ suc (base + line))

abbrev pub Aligned : {Obj : Type 0} → ℕ → ℕ → Session Obj → Type 0
Aligned base n s =
    (s.own.stmt ≡ some n)
    × Fits base (line_or_zero s.own.tuple) s.own.tuple s.own.ntuples (steps_of n s.calls)

module _ ⦃host : Host⦄ where
  open host use {Obj, step_result}

  abbrev started : Session Obj → Session Obj
  started s = record s { own = record s.own { tuple = some (line_or_zero s.own.tuple) } }

  advance-arrived :
      (k t : ℕ) (stmt : Stmt) (s : Session Obj)
      → s.own.tuple ≡ some t
      → (advance k t stmt s).0 ≡ arrived
      → (advance k t stmt s).1.own.tuple ≡ some (t + k)
  unfolding advance
  advance-arrived zero t stmt s e h = rw (e) (ground arith)
  advance-arrived (suc k) t stmt s e h = ground (
    arith,
    advance-arrived k (suc t) stmt
        (record s { calls = step stmt ∷ s.calls; own = record s.own { tuple = some (suc t) } })
        refl,
  )

  -- A fetch that is placed on a line leaves the object on the line that was asked for: the given one,
  -- or the one after the current one.
  position-arrived :
      (ituple : Option ℕ) (s : Session Obj)
      → (position ituple s).0 ≡ arrived
      → (position ituple s).1.own.tuple ≡ some (target_of s.own.tuple ituple)
  unfolding position
  position-arrived ituple s h =
      let t = line_or_zero s.own.tuple in
      let target = target_of s.own.tuple ituple in
      ground (arith, advance-arrived (target - t) t s.own.stmt (started s) refl)

  -- The first fetch of a result asks SQLite for no step and never answers that the line is out of
  -- range: it takes the step that exec made to have found a row.
  first_fetch :
      (s : Session Obj) (nfields : ℕ)
      → s.own.nfields ≡ some nfields
      → s.own.tuple ≡ none
      → s.own.ntuples ≡ none
      → ((fetch [] s).1.calls ≡ s.calls) × ((z : ℤ) → (fetch [] s).0 ≢ error (line_out_of_range z))
  unfolding fetch decode position
  first_fetch s nfields e f g = rw (e, f, g, fetch, position) (ground arith)

module _ ⦃host : Host⦄ (base n : ℕ) where
  open host use {Obj, step_result}

  abbrev after_row : ℕ → Session Obj → Session Obj
  after_row t s = record s {
    calls = step (some n) ∷ s.calls;
    own = record s.own { tuple = some (suc t) };
  }

  abbrev Ends : ℕ → ℕ → Session Obj → Type 0
  Ends k t s = ((advance k t (some n) s).0 ≡ broken) ⊎ Aligned base n (advance k t (some n) s).1

  advance-suc :
      (k t : ℕ) (s : Session Obj) (c : StepCode)
      → s.own.tuple ≡ some t
      → s.own.stmt ≡ some n
      → steps_of n s.calls ≡ base + t
      → step_result s.calls (some n) ≡ c
      → Ends k (suc t) (after_row t s)
      → Ends (suc k) t s
  unfolding advance
  advance-suc k t s row tuple stmt steps e rest = rw (e, advance) rest
  advance-suc k t s done tuple stmt steps e rest =
      rw (e, advance) (inr (stmt, rw tuple (refl, refl, ground arith)))
  advance-suc k t s okay tuple stmt steps e rest = rw (e, advance) (inl refl)
  advance-suc k t s failure tuple stmt steps e rest = rw (e, advance) (inl refl)
  advance-suc k t s misuse tuple stmt steps e rest = rw (e, advance) (inl refl)
  advance-suc k t s (other c) tuple stmt steps e rest = rw (e, advance) (inl refl)

  advance-Aligned :
      (k t : ℕ) (s : Session Obj)
      → s.own.tuple ≡ some t
      → s.own.ntuples ≡ none
      → s.own.stmt ≡ some n
      → steps_of n s.calls ≡ base + t
      → Ends k t s
  unfolding advance
  advance-Aligned zero t s tuple open_ stmt steps = inr (stmt, rw (tuple, open_) steps)
  advance-Aligned (suc k) t s tuple open_ stmt steps =
      advance-suc k t s (step_result s.calls (some n)) tuple stmt steps refl
        (advance-Aligned k (suc t) (after_row t s) refl open_ stmt (ground arith))

  started-Aligned :
      (s : Session Obj) (m : Option ℕ)
      → s.own.ntuples ≡ m
      → Aligned base n s
      → Aligned base n (started s)
  started-Aligned s none e (stmt, h) = (stmt, rw e (rw e at h))
  started-Aligned s (some m) e (stmt, h) = let (a, b, c) = rw e at h in (stmt, rw e (a, refl, c))

  -- Once the number of lines is known, no line is waited for any more.
  advance-open :
      (target : ℕ) (s : Session Obj) (m : Option ℕ)
      → s.own.ntuples ≡ m
      → Aligned base n s
      → past_end s.own.ntuples target ≡ false
      → ltb target (line_or_zero s.own.tuple) ≡ false
      → Ends (target - line_or_zero s.own.tuple) (line_or_zero s.own.tuple) (started s)
  advance-open target s none e (stmt, h) inside ahead =
      advance-Aligned _ _ (started s) refl e stmt (rw e at h)
  advance-open target s (some m) e (stmt, h) inside ahead =
      let (a, b, c) = rw e at h in let i = rw e at inside in ground arith

  position-Aligned :
      (ituple : Option ℕ) (s : Session Obj)
      → Aligned base n s
      → ((position ituple s).0 ≡ broken) ⊎ Aligned base n (position ituple s).1
  unfolding position
  position-Aligned ituple s h =
      let t = line_or_zero s.own.tuple in
      let target = target_of s.own.tuple ituple in
      elim (Bool-cases (past_end s.own.ntuples target)) [
        | inl p ↦ rw p (inr (started-Aligned s _ refl h))
        | inr p ↦ elim (Bool-cases (target == t)) [
          | inl q ↦ rw (p, q) (inr (started-Aligned s _ refl h))
          | inr q ↦ elim (Bool-cases (ltb target t)) [
            | inl r ↦ rw (p, q, r) (inr (started-Aligned s _ refl h))
            | inr r ↦
                rw (p, q, r)
                  (subst
                    (λ stmt.
                      let a = advance (target - t) t stmt (started s) in
                      (a.0 ≡ broken) ⊎ Aligned base n a.1)
                    (sym h.0) (advance-open target s _ refl h p r))
          ]
        ]
      ]

  placed-Aligned :
      (r : Request Obj) (nfields : ℕ) (p : Place) (s : Session Obj)
      → (p ≡ broken) ⊎ Aligned base n s
      → ((placed r nfields p s).0 ≡ error database_error) ⊎ Aligned base n (placed r nfields p s).1
  unfolding placed
  placed-Aligned r nfields broken s h = inl refl
  placed-Aligned r nfields out_of_position s (inl e) = cc
  placed-Aligned r nfields out_of_position s (inr h) = inr h
  placed-Aligned r nfields backward s (inl e) = cc
  placed-Aligned r nfields backward s (inr h) = inr h
  placed-Aligned r nfields arrived s (inl e) = cc
  placed-Aligned r nfields arrived s (inr h) = elim (Bool-cases (at_least r.ifield nfields)) [
    | inl e ↦ rw e (inr h)
    | inr e ↦ rw e (inr h)
  ]

  fetch_what-Aligned :
      (w : What) (r : Request Obj) (nfields : ℕ) (s : Session Obj)
      → Aligned base n s
      → ((fetch_what w r nfields s).0 ≡ error database_error)
        ⊎ Aligned base n (fetch_what w r nfields s).1
  unfolding fetch_what
  fetch_what-Aligned lines r nfields s h = inr h
  fetch_what-Aligned fields r nfields s h = inr h
  fetch_what-Aligned pos_ r nfields s h = inr h
  fetch_what-Aligned data_ r nfields s h =
      placed-Aligned r nfields _ _ (position-Aligned r.ituple s h)
  fetch_what-Aligned isnull r nfields s h =
      placed-Aligned r nfields _ _ (position-Aligned r.ituple s h)
  fetch_what-Aligned array r nfields s h =
      placed-Aligned r nfields _ _ (position-Aligned r.ituple s h)

  fetch_decoded-Aligned :
      (d : Decoded Obj) (nfields : ℕ) (s : Session Obj)
      → Aligned base n s
      → ((fetch_decoded d nfields s).0 ≡ error database_error)
        ⊎ Aligned base n (fetch_decoded d nfields s).1
  unfolding fetch_decoded
  fetch_decoded-Aligned (wrong e) nfields s h = inr h
  fetch_decoded-Aligned (request r) nfields s h = fetch_what-Aligned r.what r nfields s h

  -- If the number of steps of the pending statement fits the line that the object keeps, or, once
  -- the number of lines is known, lies one step behind it, then so it does after every fetch,
  -- whatever its arguments, unless the fetch reports an error of the database.
  pub fetch-Aligned :
      (objv : List Obj) (s : Session Obj)
      → Aligned base n s
      → ((fetch objv s).0 ≡ error database_error) ⊎ Aligned base n (fetch objv s).1
  unfolding fetch
  fetch-Aligned objv s h = elim (Option-cases s.own.nfields) [
    | inl e ↦ rw (e, fetch) (inr h)
    | inr (nfields, e) ↦ rw (e, fetch) (fetch_decoded-Aligned (decode s.own.tuple objv) nfields s h)
  ]

  position-known :
      (ituple : Option ℕ) (s : Session Obj) (m : ℕ)
      → s.own.tuple ≡ some m
      → s.own.ntuples ≡ some m
      → (position ituple s).1.calls ≡ s.calls
  unfolding position
  position-known ituple s m e f = ground arith

  abbrev ended : Option ℕ → Bool
  ended none = false
  ended (some m) = true

  advance-ended :
      (k t : ℕ) (stmt : Stmt) (s : Session Obj)
      → (advance k t stmt s).0 ≡ out_of_position
      → ended (advance k t stmt s).1.own.ntuples ≡ true
  unfolding advance
  advance-ended zero t stmt s h = cc
  advance-ended (suc k) t stmt s h = ground (
    arith,
    advance-ended k (suc t) stmt
        (record s { calls = step stmt ∷ s.calls; own = record s.own { tuple = some (suc t) } }),
  )

  position-ended :
      (ituple : Option ℕ) (s : Session Obj)
      → (position ituple s).0 ≡ out_of_position
      → ended (position ituple s).1.own.ntuples ≡ true
  unfolding position
  position-ended ituple s h =
      let t = line_or_zero s.own.tuple in
      let target = target_of s.own.tuple ituple in
      ground (arith, advance-ended (target - t) t s.own.stmt (started s))

  known-stays :
      (ituple : Option ℕ) (s : Session Obj) (m : Option ℕ)
      → s.own.ntuples ≡ m
      → ended m ≡ true
      → Aligned base n s
      → (position ituple s).1.calls ≡ s.calls
  known-stays ituple s none e f h = cc
  known-stays ituple s (some m) e f (stmt, h) =
      let (a, b, c) = rw e at h in position-known ituple s m (b ∙ ap some (sym a)) e

  -- If the steps fit the line that the object keeps, and a fetch finds its line past the end, then no
  -- later fetch, on whichever line, steps the statement any more.
  position-stops :
      (ituple later : Option ℕ) (s : Session Obj)
      → Aligned base n s
      → (position ituple s).0 ≡ out_of_position
      → let after = (position ituple s).1 in (position later after).1.calls ≡ after.calls
  position-stops ituple later s h out = elim (position-Aligned ituple s h) [
    | inl e ↦ cc
    | inr k ↦ known-stays later _ _ refl (position-ended ituple s out) k
  ]
