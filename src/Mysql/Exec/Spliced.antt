-- ===== src/Mysql/Exec/Spliced.antt =====
-- A statement of mysql/generic/mysql.c with its values.
use tcl_dbi.Base.{Option, List, if◌then◌else◌, length}
use tcl_dbi.Memory.{Bytes}
use tcl_dbi.Params.{parse_statement, run}
use tcl_dbi.Params.Text.{spliced}
use tcl_dbi.Mysql.Exec.{Sent, single, refused, has_semicolon}

-- The texts that one value or more are put into: the statement, or a refusal where it has a
-- semicolon.
abbrev pub sent_text : Bytes → Option Bytes → List Bytes → Sent
sent_text cmd null os =
    let t = spliced cmd null 0 (parse_statement cmd) os in
    if has_semicolon cmd then refused else single (run t (length t))
