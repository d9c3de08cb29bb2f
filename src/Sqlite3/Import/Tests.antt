-- ===== src/Sqlite3/Import/Tests.antt =====
-- Runs of import, and its theorems, on small files.
use tcl_dbi.Base.{◌≡◌, refl, true, some, List, [], ◌∷◌, ◌++◌, arith}
use tcl_dbi.Memory.{Bytes, codes, c_string}
use tcl_dbi.Sqlite3.Host.{exec, finalize, prepare, step, reset, bind, bind_null, bind_text}
use tcl_dbi.Sqlite3.Tests.{sample, fresh, Words}
use tcl_dbi.Sqlite3.Import.{import_lines, too_many_columns, bind_columns}
use tcl_dbi.Sqlite3.Import.Rows.{written, format, import-excess}
use tcl_dbi.Sqlite3.Import.Command.{imported, import, import_with, names_between, fault}
use tcl_dbi.Sqlite3.Import.Table.{import-table}

abbrev comma : Bytes
comma = codes ","

abbrev rows : List (List Bytes)
rows = (codes "1" ∷ codes "Ann" ∷ []) ∷ (codes "2" ∷ []) ∷ []

abbrev word : Bytes → Words
word b = b ∷ []

import-table_example :
    import ⦃host = sample 0⦄
      (λ name. some (written comma rows))
      (λ calls. true)
      (word (codes "fail") ∷ word (codes "person") ∷ word (codes "f.csv") ∷ word comma ∷ [])
      fresh
    ≡ (
      imported 2,
      record fresh {
        calls =
            exec (codes "COMMIT")
            ∷ finalize (some 7)
            ∷ reset (some 7)
            ∷ step (some 7)
            ∷ bind (some 7) 2 bind_null
            ∷ bind (some 7) 1 (bind_text (codes "2"))
            ∷ reset (some 7)
            ∷ step (some 7)
            ∷ bind (some 7) 2 (bind_text (codes "Ann"))
            ∷ bind (some 7) 1 (bind_text (codes "1"))
            ∷ exec (codes "BEGIN")
            ∷ prepare (codes "INSERT OR fail INTO 'person' VALUES(?,?)")
            ∷ finalize (some 7)
            ∷ prepare (codes "SELECT * FROM 'person'")
            ∷ [];
      },
    )
unfolding bind_columns c_string
import-table_example =
    import-table ⦃host = sample 0⦄ (λ name. some (written comma rows)) (λ calls. true)
      (word (codes "fail")) (word (codes "person")) (word (codes "f.csv")) (word comma) 44 [] 1
      (some 7) (some 7) [] [] rows fresh (λ calls. refl) refl refl refl refl refl refl refl refl

import-excess_example :
    import_lines
      (λ calls. true)
      (format 44 [] [] 2)
      (some 7)
      (written comma rows ++ (codes "3,Bob,x" ++ 10 ∷ codes "4,Cy"))
      []
    ≡ (
      too_many_columns 3,
      exec (codes "ROLLBACK")
          ∷ finalize (some 7)
          ∷ reset (some 7)
          ∷ step (some 7)
          ∷ bind (some 7) 2 bind_null
          ∷ bind (some 7) 1 (bind_text (codes "2"))
          ∷ reset (some 7)
          ∷ step (some 7)
          ∷ bind (some 7) 2 (bind_text (codes "Ann"))
          ∷ bind (some 7) 1 (bind_text (codes "1"))
          ∷ exec (codes "BEGIN")
          ∷ [],
    )
unfolding bind_columns
import-excess_example =
    import-excess (λ calls. true) (λ calls. refl) 44 [] [] 2 (some 7) rows
      (codes "3" ∷ codes "Bob" ∷ codes "x" ∷ []) (codes "4,Cy") [] refl refl refl (omega arith)
      (omega arith) refl

-- Only the first byte of a separator cuts the names of a header.
cuts_at_one_byte : names_between 58 (codes "id::name") ≡ codes "id" ∷ [] ∷ codes "name" ∷ []
cuts_at_one_byte = refl

-- An empty header, and an empty file to read it from.
no_header :
    (import_with ⦃host = sample 0⦄
      (λ name. some [])
      (λ calls. true)
      (codes "fail")
      (codes "t")
      (codes "f")
      comma
      []
      (some [])
      fresh).0
    ≡ fault
unfolding import_with
no_header = refl
