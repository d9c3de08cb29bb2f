-- ===== src/Sqlite3/Collate/Tests.antt =====
-- Runs of the collations, and their theorems, at concrete strings.
use tcl_dbi.Base.{◌≡◌, refl, [], ◌∷◌, ◌++◌, String, ltb, ◌==◌}
use tcl_dbi.Base.Int.{ℤ, pos, negsuc, ◌-ℤ◌, ltb_ℤ}
use tcl_dbi.Memory.{codes, Bytes}
use tcl_dbi.Sqlite3.Collate.{result, beyond, is_nil, collate_dictionary, collate_dictreal}
use tcl_dbi.Sqlite3.Collate.Inside.{collations-inside}
use tcl_dbi.Sqlite3.Collate.Values.{dictionary-values}

abbrev z_string : String → Bytes
z_string s = codes s ++ 0 ∷ []

-- A number of zeros at the end takes both loops beyond the NUL.
zeros_beyond : collate_dictionary (z_string "x0") (z_string "x0") ≡ beyond
unfolding collate_dictionary ◌-ℤ◌
zeros_beyond = refl

-- `Z` sorts before `_`, `_` before `a`, and `a` before `Z`.
round_about :
    (collate_dictionary (z_string "Z") (z_string "_") ≡ result (negsuc 4))
    × (collate_dictionary (z_string "_") (z_string "a") ≡ result (negsuc 1))
    × (collate_dictionary (z_string "a") (z_string "Z") ≡ result (negsuc 24))
unfolding collate_dictionary ◌-ℤ◌
round_about = (refl, refl, refl)

-- The letter behind a zero is taken for a digit: `0a1` sorts behind `0b`.
skips_behind_zero : collate_dictionary (z_string "0a1") (z_string "0b") ≡ result (pos 1)
unfolding collate_dictionary ◌-ℤ◌
skips_behind_zero = refl

collations-inside_example :
    ((d : ℤ) × (collate_dictionary (z_string "run 12") (z_string "Run 9") ≡ result d))
    × ((d : ℤ) × (collate_dictreal (z_string "run 12") (z_string "Run 9") ≡ result d))
collations-inside_example = collations-inside (z_string "run 12") (z_string "Run 9") refl refl

dictionary-values_example :
    (d : ℤ) × (collate_dictionary (z_string "109") (z_string "98") ≡ result d)
    × (ltb_ℤ d (pos 0) ≡ ltb 109 98)
    × (is_nil d ≡ (109 == 98))
dictionary-values_example = dictionary-values 49 57 (codes "09") (codes "8") refl refl refl refl
