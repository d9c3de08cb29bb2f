-- ===== src/Postgresql/Tests.antt =====
-- Runs of postgresql/generic/postgresql.c, and the theorems at concrete arguments.
use tcl_dbi.Base.{arith, ◌≡◌, refl, true, false, none, some, List, [], ◌∷◌, map}
use tcl_dbi.Base.Int.{pos}
use tcl_dbi.Memory.{codes, c_string}
use tcl_dbi.Memory.Cursor.{c_string-clean}
use tcl_dbi.Memory.Yields.{Yields}
use tcl_dbi.Params.{room, parse_statement, run, postgresql_query}
use tcl_dbi.Params.Exec.{queries-spliced}
use tcl_dbi.Fetch.{line_out_of_range}
use tcl_dbi.Sqlite.Tests.{tcl, Words, spaced}
use tcl_dbi.Postgresql.Session.{
  Host, Session, Table, command, tuples, ran, default_null, Item, text, line, get_value, to_result,
}
use tcl_dbi.Postgresql.Exec.{exec, lines, done, counted, empty_table}
use tcl_dbi.Postgresql.Fetch.{Fetched, error, fetch}
use tcl_dbi.Postgresql.Fetch.Lines.{exec-fetch_lines, fetch_each}
use tcl_dbi.Postgresql.Held.{
  fetching, executing, commands-Held, run_commands, Held, exec-forgets, live,
}

-- A char(5) and a time, in two rows.
abbrev table : Table
table = record {
  names = codes "c" ∷ codes "t" ∷ [];
  types = 1042 ∷ 1083 ∷ [];
  rows =
      (some (codes "ab   ") ∷ some (codes "10:00:00+02") ∷ [])
      ∷ (none ∷ some (codes "10:00:00") ∷ [])
      ∷ [];
}

abbrev host : Host
host = record { reply = λ calls sql. tuples table; null_outside = true; reads_double = λ s. true }

-- A server that carries out commands.
abbrev carrying : Host
carrying = record {
  reply = λ calls sql. command (codes "1");
  null_outside = true;
  reads_double = λ s. true;
}

abbrev fresh : Session
fresh = record { calls = []; res = none; respos = none }

abbrev sql : Words
sql = codes "select c, t from x" ∷ []

-- An empty value of type char(n) is a read before the string.
blank : get_value {Obj = Words} ⦃host = host⦄ 1042 (codes "  ") ≡ none
unfolding get_value
blank = refl

asked : postgresql_query 170 (tcl.string sql) none [] ≡ run (codes "select c, t from x") 18
unfolding parse_statement c_string room
asked = (queries-spliced 170 (tcl.string sql) none [] refl refl refl (omega arith)).0

abbrev shown : List (Item Words)
shown =
    line (text (codes "ab") ∷ text (codes "10:00:00.000") ∷ [])
    ∷ line (default_null ∷ text (codes "10:00:00.000") ∷ [])
    ∷ []

exec-fetch_lines_example :
    Yields
      (λ r. r.0 ≡ lines shown)
      (exec ⦃tcl = tcl⦄ ⦃host = host⦄ 170 true false false sql none [] fresh)
    × Yields
        (λ r.
          (r.0 ≡ done)
          × ((fetch_each ⦃tcl = tcl⦄ ⦃host = host⦄ 2 r.1).0
              ≡ map (λ item. Fetched.ok (some item)) shown)
          × ((fetch ⦃tcl = tcl⦄ ⦃host = host⦄ [] (fetch_each ⦃tcl = tcl⦄ ⦃host = host⦄ 2 r.1).1).0
              ≡ error (line_out_of_range (pos 2))))
        (exec ⦃tcl = tcl⦄ ⦃host = host⦄ 170 true true false sql none [] fresh)
unfolding to_result
exec-fetch_lines_example =
    exec-fetch_lines ⦃tcl = tcl⦄ ⦃host = host⦄ 170 false sql [] (codes "select c, t from x") 18
      table shown fresh asked refl refl

commands-Held_example : Yields (Held ⦃host = host⦄) (
    run_commands ⦃tcl = tcl⦄ ⦃host = host⦄ 170
      (executing true false sql none [] ∷ fetching [] ∷ executing true true sql none [] ∷ [])
      fresh)
unfolding live
commands-Held_example =
    commands-Held ⦃tcl = tcl⦄ ⦃host = host⦄ (λ o. c_string-clean (spaced o)) 170
      (executing true false sql none [] ∷ fetching [] ∷ executing true true sql none [] ∷ []) fresh
      (record { only = refl; older = tt })

-- An empty result that is left for fetch.
abbrev waiting : Session
waiting = record {
  calls = ran (codes "update y") ∷ [];
  res = some (record { number = 0; table = empty_table });
  respos = none;
}

exec-forgets_example :
    Yields
      (λ u.
        (u.0 ≡ counted (codes "1"))
        × (u.1.res ≡ none)
        × (live ⦃host = carrying⦄ u.1.calls ≡ 0 ∷ []))
      (exec ⦃tcl = tcl⦄ ⦃host = carrying⦄ 170 true false true sql none [] waiting)
unfolding live
exec-forgets_example =
    exec-forgets ⦃tcl = tcl⦄ ⦃host = carrying⦄ 170 true sql none [] (codes "select c, t from x")
      (codes "1") 18 (record { number = 0; table = empty_table }) waiting asked refl refl
      (record { only = refl; older = omega arith })
