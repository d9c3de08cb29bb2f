-- ===== src/Sqlite/Tests.antt =====
-- A small Tcl and SQLite to run sqlite/generic/sqlite.c on, with runs and the theorems at concrete
-- arguments.
use tcl_dbi.Base.{
  ℕ, suc, ◌≡◌, refl, true, false, Option, none, some, List, [], ◌∷◌, ◌++◌, map, if◌then◌else◌,
  length, arith,
}
use mathlib.Core.Option
use tcl_dbi.Base.Int.{pos}
use tcl_dbi.Memory.{bytes_eq, Bytes, c_string, codes}
use tcl_dbi.Memory.Yields.{Yields}
use tcl_dbi.Params.{room, parse_statement, run, sqlite_query}
use tcl_dbi.Params.Text.{doubled}
use tcl_dbi.Params.Exec.{queries-spliced}
use tcl_dbi.Sqlite3.Statement.{sum_lengths}
use tcl_dbi.Sqlite3.Statement.Text.{join}
use tcl_dbi.Tcl.{Tcl}
use tcl_dbi.Fetch.{line_out_of_range}
use tcl_dbi.Sqlite.Statement.{set_sql, insert_sql, unset_sql, pairs_room, count_single_quote}
use tcl_dbi.Sqlite.Statement.Update.{set_sql-set_text}
use tcl_dbi.Sqlite.Statement.Insert.{insert_sql-literals}
use tcl_dbi.Sqlite.Statement.Unset.{unset_sql-unset_text}
use tcl_dbi.Sqlite.Session.{Host, okay, other, default_null, Session}
use tcl_dbi.Sqlite.Exec.{ok, exec}
use tcl_dbi.Sqlite.Exec.Bracket.{exec-bracketed, Reported, bracketed}
use tcl_dbi.Sqlite.Fetch.{Fetched, error, fetch}
use tcl_dbi.Sqlite.Fetch.Rows.{exec-fetch_each, fetch_each, line_of}
use tcl_dbi.Sqlite.Object.{get}
use tcl_dbi.Sqlite.Object.Outcomes.{get-row_answer, row_answer}

set_sql-set_text_example :
    set_sql 170 39
      (codes "t")
      (codes "5")
      (some (codes "?"))
      (codes "a", codes "it's")
      ((codes "b", codes "?") ∷ [])
    ≡ some (codes "update \"t\" set \"a\" = 'it''s', \"b\" = NULL where \"id\" = '5'")
unfolding join doubled pairs_room count_single_quote
set_sql-set_text_example =
    set_sql-set_text 170 39 (codes "t") (codes "5") (some (codes "?")) (codes "a") (codes "it's")
      ((codes "b", codes "?") ∷ []) refl refl refl (omega arith)

insert_sql-literals_example :
    insert_sql 170 39 (codes "t") (some (codes "5")) none (codes "a", codes "it's") []
    ≡ some (codes "insert into \"t\" (\"a\",\"id\") values ('it''s','5')")
unfolding join doubled pairs_room count_single_quote
insert_sql-literals_example =
    insert_sql-literals 170 39 (codes "t") (some (codes "5")) none (codes "a") (codes "it's") []
      refl refl refl (omega arith)

unset_sql-unset_text_example :
    unset_sql 170 (codes "t") (codes "5") (codes "a") (codes "b" ∷ codes "c" ∷ codes "d" ∷ [])
    ≡ none
unfolding sum_lengths
unset_sql-unset_text_example =
    unset_sql-unset_text 170 (codes "t") (codes "5") (codes "a")
      (codes "b" ∷ codes "c" ∷ codes "d" ∷ []) refl refl refl (omega arith)

-- A value is the list of its words.
abbrev pub Words : Type 0
Words = List Bytes

abbrev pub spaced : Words → Bytes
spaced [] = []
spaced (w ∷ []) = w
spaced (w ∷ ws) = w ++ 32 ∷ spaced ws

abbrev place : List Bytes → Bytes → Option ℕ
place [] b = none
place (w ∷ ws) b = if bytes_eq w b then some 0 else Option.map suc (place ws b)

abbrev pub tcl : Tcl
tcl = record {
  Obj = Words;
  string = λ o. c_string (spaced o);
  get_int = λ o. none;
  get_index = λ words o. place words (spaced o);
  elements = λ o. some (map (λ w. w ∷ []) o);
}

-- One row of two columns for every text.
abbrev host : Host
host = record {
  callbacks = λ calls sql.
      record {
        names = codes "id" ∷ codes "name" ∷ [];
        values = some (some (codes "1") ∷ none ∷ []);
      }
      ∷ [];
  code = λ calls sql. okay;
  changes = λ calls. 1;
  last_insert_rowid = λ calls. pos 5;
}

-- A host that refuses every text but the transaction's.
abbrev refusing : Host
refusing = record {
  callbacks = λ calls sql. [];
  code = λ calls sql. other 1;
  changes = λ calls. 0;
  last_insert_rowid = λ calls. pos 0;
}

abbrev fresh : Session Words
fresh = record {
  calls = [];
  result = none;
  resultfields = none;
  resultflat = false;
  ntuples = 0;
  nfields = 0;
  tuple = none;
  nullvalue = some default_null;
  autocommit = true;
  intransaction = false;
}

abbrev sql : Words
sql = codes "select ? from t where a = ?" ∷ []

abbrev values : List Words
values = (codes "it's" ∷ []) ∷ (codes "x" ∷ []) ∷ []

abbrev spliced_sql : Bytes
spliced_sql = codes "select 'it''s' from t where a = 'x'"

spliced :
    sqlite_query 170 (tcl.string sql) none (map (λ o. tcl.string o) values)
    ≡ run spliced_sql (length spliced_sql)
unfolding parse_statement doubled c_string room
spliced =
    (queries-spliced 170 (tcl.string sql) none (map (λ o. tcl.string o) values) refl refl refl
      (omega arith)).1

exec-bracketed_example :
    Yields
      (λ r. (r.1.calls ≡ bracketed true (other 1) spliced_sql []) × Reported (other 1) r)
      (exec ⦃tcl = tcl⦄ ⦃host = refusing⦄ 170 true false false sql none values fresh)
exec-bracketed_example =
    exec-bracketed ⦃tcl = tcl⦄ ⦃host = refusing⦄ 170 false false sql none values spliced_sql _ fresh
      spliced

exec-fetch_each_example :
    Yields
      (λ r.
        (r.0 ≡ ok none)
        × ((fetch_each ⦃tcl = tcl⦄ 1 r.1).0
            ≡ Fetched.ok (some (line_of (some (codes "1") ∷ none ∷ []))) ∷ [])
        × ((fetch ⦃tcl = tcl⦄ [] (fetch_each ⦃tcl = tcl⦄ 1 r.1).1).0
            ≡ error (line_out_of_range (pos 1))))
      (exec ⦃tcl = tcl⦄ ⦃host = host⦄ 170 true true false sql none values fresh)
exec-fetch_each_example =
    exec-fetch_each ⦃tcl = tcl⦄ ⦃host = host⦄ 170 false sql none values spliced_sql _ fresh spliced
      refl

get-row_answer_example :
    Yields
      (λ r.
        (r.0 ≡ row_answer (codes "id" ∷ codes "name" ∷ []) (some (some (codes "1") ∷ none ∷ [])))
        × (r.1.result ≡ none)
        × (r.1.resultfields ≡ none))
      (get ⦃tcl = tcl⦄ ⦃host = host⦄ 170 (codes "t" ∷ codes "5" ∷ []) [] fresh)
unfolding c_string sum_lengths
get-row_answer_example =
    get-row_answer ⦃tcl = tcl⦄ ⦃host = host⦄ 170 (codes "t" ∷ codes "5" ∷ []) (codes "t" ∷ [])
      (codes "5" ∷ []) (codes "id" ∷ codes "name" ∷ []) (some (some (codes "1") ∷ none ∷ [])) fresh
      refl refl refl (omega arith) refl refl refl refl refl
