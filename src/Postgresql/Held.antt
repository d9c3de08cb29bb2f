-- ===== src/Postgresql/Held.antt =====
-- The results of libpq that are not cleared yet, over the commands exec and fetch and the
-- transactions of postgresql/generic/postgresql.c.
use tcl_dbi.Base.{
  ℕ, zero, suc, leb, if_cases, subst, ◌<◌, ◌≡◌, refl, ap, ◌∙◌, Bool, true, false, Option, none,
  some, List, [], ◌∷◌, ◌==◌, map, if◌then◌else◌, length, arith,
}
use mathlib.Core.Option
use tcl_dbi.Memory.{Bytes}
use tcl_dbi.Memory.Yields.{then_yields, Yields, yields}
use tcl_dbi.Memory.{NoNul, AllNoNul}
use tcl_dbi.Params.{Query, wrong_number, fault, run, postgresql_query}
use tcl_dbi.Params.Exec.{Settled, query-Settled}
use tcl_dbi.Postgresql.Fetch.{Fetched, fetch, fetch_decoded, fetch_option, fetch_line}
use tcl_dbi.Fetch.{Decoded, request, Request, target_of, at_least, decode, postgresql_sub_cmds}
use tcl_dbi.Tcl.{Tcl}
use tcl_dbi.Postgresql.Session.{
  Host, History, Reply, nothing, command, tuples, refused, Result, Table, Session, ran, cleared,
}
use tcl_dbi.Postgresql.Exec.{counted, keep, by_reply, run_query, exec, empty_table}

abbrev pub answered : Reply → Bool
answered nothing = false
answered (command count) = true
answered (tuples t) = true
answered refused = true

abbrev pub without : ℕ → List ℕ → List ℕ
without n [] = []
without n (m ∷ ms) = let rest = without n ms in if m == n then rest else m ∷ rest

abbrev pub pending : Option Result → List ℕ
pending none = []
pending (some r) = r.number ∷ []

-- The results that PQexec gave and PQclear has not had, newest first.
unfoldable pub live : ⦃host : Host⦄ → History → List ℕ
live [] = []
live (cleared n ∷ h) = without n (live h)
live ⦃host⦄ (ran sql ∷ h) =
    let before = live h in if answered (host.reply h sql) then length h ∷ before else before

abbrev Older : ℕ → Option Result → Type 0
Older n none = Unit {0}
Older n (some r) = r.number < n

-- No result but the pending one is left, and the pending one is.
pub record Held ⦃host : Host⦄ (s : Session) : Type 0 where
  pub only : live s.calls ≡ pending s.res
  pub older : Older (length s.calls) s.res

Older-suc : (n : ℕ) (res : Option Result) → Older n res → Older (suc n) res
Older-suc n none h = tt
Older-suc n (some r) h = omega arith

module _ ⦃host : Host⦄ where
  -- After a call that gave a result, which is kept.
  keep-Held :
      (sql : Bytes) (t : Table) (h : History) (res : Option Result) (p : Option ℕ)
      → answered (host.reply h sql) ≡ true
      → live h ≡ pending res
      → Older (length h) res
      → Held (
          keep true
            (record { number = length h; table = t })
            (record { calls = ran sql ∷ h; res = res; respos = p }))
  unfolding keep live
  keep-Held sql t h none p a e o = record { only = rw (a, e) refl; older = omega arith }
  keep-Held sql t h (some r) p a e o =
      let apart : (length h == r.number) ≡ false = ground arith in
      let same : (r.number == r.number) ≡ true = ground arith in
      record { only = rw (a, e) (rw (apart, same) refl); older = omega arith }

  -- The same for one that is cleared at once, before the position is set.
  clear-only :
      (sql : Bytes) (h : History) (res : Option Result)
      → answered (host.reply h sql) ≡ true
      → live h ≡ pending res
      → Older (length h) res
      → live (cleared (length h) ∷ ran sql ∷ h) ≡ pending res
  unfolding live
  clear-only sql h none a e o =
      let same : (length h == length h) ≡ true = ground arith in rw (a, e) (rw same refl)
  clear-only sql h (some r) a e o =
      let same : (length h == length h) ≡ true = ground arith in
      let apart : (r.number == length h) ≡ false = ground arith in rw (a, e) (rw (same, apart) refl)

-- A command of a script that reads its results by fetch.
pub data Command (Obj : Type 0) : Type 0 where
  fetching : List Obj → Command Obj
  executing : Bool → Bool → Obj → Option Obj → List Obj → Command Obj

module _ ⦃tcl : Tcl⦄ ⦃host : Host⦄ where
  open tcl use {Obj, string}

  -- exec with -usefetch, or fetch
  abbrev pub run_command : ℕ → Command Obj → Session → Option Session
  run_command junk (fetching objv) s = some (fetch objv s).1
  run_command junk (executing open? flat cmd nv objv) s =
      elim (exec junk open? true flat cmd nv objv s) [ none ↦ none | some (a, t) ↦ some t ]

  unfoldable pub run_commands : ℕ → List (Command Obj) → Session → Option Session
  run_commands junk [] s = some s
  run_commands junk (c ∷ cs) s = elim (run_command junk c s) [
    | none ↦ none
    | some t ↦ run_commands junk cs t
  ]

  moved-Held : (p : Option ℕ) (s : Session) → Held s → Held (record s { respos = p })
  moved-Held p s h = record { only = h.only; older = h.older }

  fetch_line-Held : (r : Request Obj) (t : Table) (s : Session) → Held s → Held (fetch_line r t s).1
  unfolding fetch_line
  fetch_line-Held r t s h =
      let there = moved-Held (some (target_of s.respos r.ituple)) s h in
      if_cases (λ (u : Fetched Obj × Session). Held u.1)
        (leb (length t.rows) (target_of s.respos r.ituple)) there
        (if_cases (λ (u : Fetched Obj × Session). Held u.1) (at_least r.ifield (length t.names))
          there there)

  fetch_option-Held :
      (w : ℕ) (r : Request Obj) (res : Result) (s : Session)
      → s.res ≡ some res
      → Held s
      → Held (fetch_option w r res s).1
  unfolding fetch_option live
  fetch_option-Held zero r res s e h = fetch_line-Held r res.table s h
  fetch_option-Held (suc zero) r res s e h = h
  fetch_option-Held (suc (suc zero)) r res s e h = h
  fetch_option-Held (suc (suc (suc zero))) r res s e h = h
  fetch_option-Held (suc (suc (suc (suc zero)))) r res s e h =
      let same : (res.number == res.number) ≡ true = ground arith in
      record { only = ap (without res.number) (h.only ∙ ap pending e) ∙ (rw same refl); older = tt }
  fetch_option-Held (suc (suc (suc (suc (suc n))))) r res s e h = fetch_line-Held r res.table s h

  fetch_pending-Held :
      (r : Request Obj) (res : Option Result) (s : Session)
      → s.res ≡ res
      → Held s
      → Held (fetch_decoded (request r) (record s { res = res })).1
  unfolding fetch_decoded
  fetch_pending-Held r none s e h = record { only = h.only ∙ ap pending e; older = tt }
  fetch_pending-Held r (some res) s e h =
      fetch_option-Held r.option r res (record s { res = some res }) refl
        (subst (λ x. Held (record s { res = x })) e h)

  fetch_decoded-Held : (d : Decoded Obj) (s : Session) → Held s → Held (fetch_decoded d s).1
  unfolding fetch_decoded
  fetch_decoded-Held (Decoded.wrong e) s h = h
  fetch_decoded-Held (request r) s h = fetch_pending-Held r s.res s refl h

  by_reply-Held :
      (flat : Bool) (nv : Option Obj) (sql : Bytes) (reply : Reply) (s : Session)
      → host.reply s.calls sql ≡ reply
      → Held s
      → Yields
          (λ r. Held r.1)
          (by_reply true flat nv reply (length s.calls) (record s { calls = ran sql ∷ s.calls }))
  unfolding by_reply live
  by_reply-Held flat nv sql nothing s e h =
      yields (record { only = rw e h.only; older = Older-suc _ s.res h.older })
  by_reply-Held flat nv sql refused s e h = yields (record {
    only = clear-only sql s.calls s.res (ap answered e) h.only h.older;
    older = Older-suc _ s.res (Older-suc _ s.res h.older);
  })
  by_reply-Held flat nv sql (command count) s e h =
      yields (keep-Held sql empty_table s.calls s.res s.respos (ap answered e) h.only h.older)
  by_reply-Held flat nv sql (tuples t) s e h =
      yields (keep-Held sql t s.calls s.res s.respos (ap answered e) h.only h.older)

  run_query-Held :
      (flat : Bool) (nv : Option Obj) (q : Query) (s : Session)
      → Settled q
      → Held s
      → Yields (λ r. Held r.1) (run_query true flat nv q s)
  unfolding run_query
  run_query-Held flat nv wrong_number s k h = yields h
  run_query-Held flat nv fault s k h = elim k [ ]
  run_query-Held flat nv (run sql n) s k h = by_reply-Held flat nv sql _ s refl h

  module _ (clean : (o : Obj) → NoNul (string o)) (junk : ℕ) where
    AllNoNul-strings : (os : List Obj) → AllNoNul (map string os)
    AllNoNul-strings [] = refl
    AllNoNul-strings (o ∷ os) = rw (clean o, AllNoNul-strings os)

    exec-Held :
        (open? flat : Bool) (cmd : Obj) (nv : Option Obj) (objv : List Obj) (s : Session)
        → Held s
        → Yields (λ r. Held r.1) (exec junk open? true flat cmd nv objv s)
    unfolding exec postgresql_query
    exec-Held open? flat cmd nv objv s h =
        if_cases (Yields (λ r. Held r.1)) open?
          (run_query-Held flat nv _ s
            (query-Settled junk (string cmd) (Option.map string nv) (map string objv) 0 (clean cmd)
              (AllNoNul-strings objv))
            h)
          (yields h)

    run_command-Held : (c : Command Obj) (s : Session) → Held s → Yields Held (run_command junk c s)
    unfolding fetch
    run_command-Held (fetching objv) s h =
        yields (fetch_decoded-Held (decode postgresql_sub_cmds s.respos objv) s h)
    run_command-Held (executing open? flat cmd nv objv) s h =
        then_yields (exec-Held open? flat cmd nv objv s h) λ r k. yields k

    -- Any sequence of exec with -usefetch and of fetch, on an object whose strings have no NUL byte,
    -- comes to its end, whatever the server replies. If before it the pending result was the one
    -- result of libpq not cleared, or there was none, then this holds after it: each result is
    -- cleared once it is replaced, refused or given up by `fetch clear`, and not before.
    pub commands-Held :
        (cs : List (Command Obj)) (s : Session) → Held s → Yields Held (run_commands junk cs s)
    unfolding run_commands
    commands-Held [] s h = yields h
    commands-Held (c ∷ cs) s h = then_yields (run_command-Held c s h) λ t k. commands-Held cs t k

  -- exec without -usefetch of a command that the server carries out, while a result is pending: the
  -- answer is the number of rows, and the pending result is forgotten and never cleared.
  pub exec-forgets :
      (junk : ℕ) (flat : Bool) (cmd : Obj) (nv : Option Obj) (objv : List Obj) (sql count : Bytes)
      (n : ℕ) (r : Result) (s : Session)
      → postgresql_query junk (string cmd) (Option.map string nv) (map string objv) ≡ run sql n
      → host.reply s.calls sql ≡ command count
      → s.res ≡ some r
      → Held s
      → Yields
          (λ u. (u.0 ≡ counted count) × (u.1.res ≡ none) × (live u.1.calls ≡ r.number ∷ []))
          (exec junk true false flat cmd nv objv s)
  unfolding exec run_query by_reply keep
  exec-forgets junk flat cmd nv objv sql count n r s q e p h =
      rw (q, e)
        (yields
          (refl, refl, clear-only sql s.calls s.res (ap answered e) h.only h.older ∙ ap pending p))
