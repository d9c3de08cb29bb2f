-- ===== src/Lib.antt =====
-- tcl-dbi: database backends for Tcl in C. This library models the sqlite3 backend, most of the
-- sqlite backend, exec and fetch of the postgresql backend, the parameters of the mysql, postgresql
-- and sqlite backends, the texts that exec of the mysql backend hands over and its fetch, and the
-- division of a text into statements of the firebird backend.
--
-- The program. Each backend gives Tcl an object command for a database connection. Its handlers
-- `get`, `insert`, `set`, `unset` and `delete` work on one row by its id: they build an SQL text in
-- a buffer, have it prepared or take it from the cache of prepared statements, bind the values,
-- step, and leave the statement reset. `exec` runs SQL; with -usefetch it leaves its result pending
-- and `fetch` walks over the lines.
--
-- The files. Sqlite3 is sqlite3/generic/sqlite.c:
--   Sqlite3/Host       the Tcl values and the SQLite library, parameters of the model. Every answer of
--                      SQLite is a function of all the calls made before, newest first.
--   Sqlite3/Session    a database object: calls, cache (preparedhash), pending result, clones;
--                      ClearResult, preparecached, bindarg
--   Sqlite3/Row        getresultfield, getrow, and the column names
--   Sqlite3/Statement  the SQL texts, stored byte by byte in the buffers of the source (Memory);
--                      Text has the same statements written down apart from any buffer
--   Sqlite3/Object     Get, Insert, Set, Unset, Delete and SplitObject, with each call of SQLite
--   Sqlite3/Clean      statements that are reset and have no parameter bound
--   Sqlite3/Fetch      Fetch, with the decoding of its arguments
--   Sqlite3/Transaction  begin, commit and rollback
--   Sqlite3/Exec       Exec: the loops that ask SQLite and the error label; Main has the loop over the
--                      statements, Single and Broken one statement, Endless the texts on which it does
--                      not end, Closed, Guarded and Ended the automatic transaction
--   Sqlite3/Lifecycle  an object and its clones from New to Destroy: connection, array of clones, commands
--   Sqlite3/Command    DbObjCmd: options (Options), counts of arguments, and the handlers that it calls;
--                      begin, commit, rollback, tables, supports, interface
--   Sqlite3/Close      Clearcache, and Close for an object that is no clone and has none
--   Sqlite3/Collate    the collations DICT and DICTREAL, on strings with their NUL: Opposite and Order
--                      exchange the strings, Ends the loop, Inside reads, Values numbers
--   Sqlite3/Import     sqlite3/generic/dbi_sqlite_import.c: reading of lines (Reading), their columns
--                      (Columns), the rows of a file (Rows), the command (Command, Table)
--   Sqlite3/Incrblob   the channels of sqlite3/generic/dbi_sqlite_incrblob.c: input, output and seek
--                      (Bounds), and the list of the open channels at its links (Open)
--   Sqlite3/Tests      a small Tcl and SQLite, and runs
--   Params             ..._ParseStatement and ..._InsertParam of mysql/generic/mysql.c,
--                      postgresql/generic/postgresql.c and sqlite/generic/sqlite.c: the search for
--                      `?` as a machine over the bytes, and the replacement in a buffer that grows;
--                      Text says what the replacement means, Exec which query is run
--   Firebird/Split     dbi_Firebird_SplitSQL and Find_Prev of firebird/generic/firebird.c; Cuts has the
--                      lines it leaves. Two units of fuel more than the text has bytes are enough.
--   Sqlite             sqlite/generic/sqlite.c, on version 2 of SQLite. Statement has the SQL texts with
--                      the values as literals, Session the object with Fillresult, Exec also the
--                      transactions, Fetch the walk over a result, Object the commands on one row.
--   Tcl, Fetch         Tcl's value functions, a parameter; the arguments of fetch as the backends
--                      sqlite, mysql and postgresql decode them
--   Postgresql         postgresql/generic/postgresql.c on libpq: Session has GetOne and ToResult, Exec,
--                      Fetch, Open the text of the connection; Held has the results not cleared yet
--   Mysql              mysql/generic/mysql.c: Quotes has removequotes, Exec the text that Exec
--                      hands to the server, Rows the values and rows of a result, Fetch the walk over
--                      them
--   Base, Memory       shared helpers; buffers in which a store outside is a fault
--
-- Conventions. A name is its bytes without the terminating NUL. A NULL pointer, and the value -1 of
-- `nfields`, `tuple` and `ntuples`, is `none`. Reference counts and the texts of messages are left
-- out. Loops over arguments are recursions on the list; the loop over the steps of a fetch recurses
-- on the number of lines that are left to go, so no fuel can run out. The loops of exec end by what
-- SQLite answers: they take fuel, and a result `endless` says that it ran out; as many units as there
-- are statements, or rows, are enough. The loop of the collations takes as much fuel as the left string
-- has bytes, and one more; so do the lines of an import and the reading of one. A double is its
-- bit pattern.
-- The sizes of the buffers of the object commands are summed in an int: where a sum leaves its range,
-- which C does not define, the definitions give no result (alloc_int), and the theorems that a text is
-- written have the premise that it stays in. The size in InsertParam is summed in ℕ, and the theorems
-- on exec of sqlite, postgresql and mysql have this premise, too. A `begin` of exec of sqlite3 counts
-- as ended (unended) once SQLite accepts the commit or the rollback is asked for.
--
-- Not modelled: the odbc and interbase backends and the rest of the firebird backend, which are for
-- the most part calls of their client libraries; the division into statements of the mysql backend
-- and its storing of results; opening, closing and the options of the object command outside sqlite3, which go the same
-- way there; of sqlite3, the callbacks from SQLite into Tcl, and the subcommands that register them
-- or copy a database.
pub mod Base
pub mod Fetch
pub mod Firebird
pub mod Memory
pub mod Mysql
pub mod Params
pub mod Postgresql
pub mod Sqlite
pub mod Sqlite3
pub mod Tcl
