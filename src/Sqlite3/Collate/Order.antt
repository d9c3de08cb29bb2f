-- ===== src/Sqlite3/Collate/Order.antt =====
-- The two collations as orders.
use tcl_dbi.Base.{◌+◌, ◌≡◌, ◌≢◌, ap, ◌∙◌, length, arith}
use tcl_dbi.Base.Int.{ℤ, pos}
use tcl_dbi.Memory.{Bytes}
use tcl_dbi.Sqlite3.Collate.{
  unending, Numbers, digits, reals, collate, collate_dictionary, collate_dictreal,
}
use tcl_dbi.Sqlite3.Collate.Opposite.{
  opposite, Even, digits-exchanged, reals-exchanged, collate-opposite,
}
use tcl_dbi.Sqlite3.Collate.Ends.{Shrinks, digits-within, reals-within, collate-Agree}

exchange :
    (numbers : ℤ → Bytes → Bytes → Numbers) (left right : Bytes)
    → Even numbers
    → Shrinks numbers
    → collate numbers (length right + 1) (pos 0) right left
      ≡ opposite (collate numbers (length left + 1) (pos 0) left right)
exchange numbers left right even s =
    collate-opposite numbers (length right + 1) (pos 0) left right even
    ∙ ap opposite
        (collate-Agree numbers (length right + 1) (length left + 1) (pos 0) left right s
          (omega arith) (omega arith)).0

-- With the strings exchanged, DICT and DICTREAL give the opposite result, also where a string is
-- read beyond its end: what sorts before the other sorts after it.
collations-opposite :
    (left right : Bytes)
    → (collate_dictionary right left ≡ opposite (collate_dictionary left right))
      × (collate_dictreal right left ≡ opposite (collate_dictreal left right))
unfolding collate_dictionary collate_dictreal
collations-opposite left right = (
  exchange digits left right digits-exchanged digits-within,
  exchange reals left right reals-exchanged reals-within,
)

-- The fuel of DICT and DICTREAL never runs out: they give a result or read beyond a string.
pub collations-return :
    (left right : Bytes)
    → (collate_dictionary left right ≢ unending) × (collate_dictreal left right ≢ unending)
unfolding collate_dictionary collate_dictreal
collations-return left right = (
  (collate-Agree digits (length left + 1) (length left + 1) (pos 0) left right digits-within
      (omega arith) (omega arith)).1,
  (collate-Agree reals (length left + 1) (length left + 1) (pos 0) left right reals-within
      (omega arith) (omega arith)).1,
)
