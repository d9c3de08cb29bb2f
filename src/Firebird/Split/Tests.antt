-- ===== src/Firebird/Split/Tests.antt =====
-- Texts split into their statements.
use tcl_dbi.Base.{arith, ◌≡◌, refl, [], ◌∷◌}
use tcl_dbi.Memory.{codes}
use tcl_dbi.Firebird.Split.{split_sql, over, beyond}
use tcl_dbi.Firebird.Split.Cuts.{Splits, split_sql-Splits}

two_statements : split_sql 30 (codes "a x; b ';' ; c") ≡ over ((0, 3) ∷ (5, 6) ∷ [])
unfolding split_sql
two_statements = refl

-- A literal that ends the text: the scan goes on behind the NUL.
last_literal : split_sql 30 (codes "a; b 'c'") ≡ beyond
unfolding split_sql
last_literal = refl

split_sql-Splits_example : Splits (codes "a; b ';' ; c ") (split_sql 20 (codes "a; b ';' ; c "))
split_sql-Splits_example = split_sql-Splits (codes "a; b ';' ; c ") 20 (omega arith)
