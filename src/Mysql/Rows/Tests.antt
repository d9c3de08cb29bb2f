-- ===== src/Mysql/Rows/Tests.antt =====
-- Values and rows at concrete arguments.
use tcl_dbi.Base.{◌≡◌, ◌≤◌, ◌+◌, refl, true, none, some, [], ◌∷◌, length}
use mathlib.Core.Option
use tcl_dbi.Memory.{Bytes, codes}
use tcl_dbi.Memory.Yields.{Yields}
use tcl_dbi.Mysql.Rows.{
  timestamp_text, string, double, default_null, float, time, get_one, to_result, to_result_flat,
}
use tcl_dbi.Mysql.Rows.Times.{timestamp_text-fits, to_result_flat-concat, concat}

full : timestamp_text (codes "20040229123456") ≡ some (codes "2004-02-29 12:34:56.000")
unfolding timestamp_text
full = refl

-- The format of a printf in place of the buffer.
short : timestamp_text (codes "040229") ≡ none
unfolding timestamp_text
short = refl

flat :
    to_result_flat {Obj = Bytes}
      (λ s. true)
      default_null
      (float ∷ time ∷ [])
      ((some (codes "2.5") ∷ none ∷ []) ∷ (none ∷ some (codes "12:00:00") ∷ []) ∷ [])
    ≡ some (double (codes "2.5") ∷ default_null ∷ default_null ∷ string (codes "12:00:00.000") ∷ [])
unfolding to_result_flat get_one
flat = refl

timestamp_text-fits_example :
    Yields (λ t. length t + 1 ≤ 24) (timestamp_text (codes "20040229123456"))
timestamp_text-fits_example = timestamp_text-fits (codes "20040229123456") refl

to_result_flat-concat_example :
    to_result_flat {Obj = Bytes}
      (λ s. true)
      default_null
      (float ∷ time ∷ [])
      ((some (codes "2.5") ∷ none ∷ []) ∷ [])
    ≡ Option.map concat (
        to_result
          (λ s. true)
          default_null
          (float ∷ time ∷ [])
          ((some (codes "2.5") ∷ none ∷ []) ∷ []))
to_result_flat-concat_example =
    to_result_flat-concat (λ s. true) default_null (float ∷ time ∷ [])
      ((some (codes "2.5") ∷ none ∷ []) ∷ [])
