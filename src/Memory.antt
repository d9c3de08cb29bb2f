-- ===== src/Memory.antt =====
-- Byte buffers as the C code fills them: `Tcl_Alloc`, stores through a cursor and `sprintf`.
-- A store outside the buffer is a fault, `none`. A fresh buffer holds an arbitrary byte.
pub mod Laws
pub mod Yields
pub mod Cursor
use Prim.Native.Char.{code}
use tcl_dbi.Base.{
  ℕ, zero, suc, ◌+◌, ◌<◌, ◌≡◌, refl, ltb, lt→ltb, not, ◌&&◌, String, Bool, true, false, Option,
  none, some, List, [], ◌∷◌, ◌++◌, ◌==◌, leb, if◌then◌else◌, ◌>>=◌, length, take, drop, replicate,
  map,
}

abbrev pub Bytes : Type 0
Bytes = List ℕ

abbrev pub bytes_eq : Bytes → Bytes → Bool
bytes_eq [] [] = true
bytes_eq [] (c ∷ cs) = false
bytes_eq (b ∷ bs) [] = false
bytes_eq (b ∷ bs) (c ∷ cs) = (b == c) && bytes_eq bs cs

-- The bytes of an ASCII literal of the source.
abbrev pub codes : String → Bytes
codes String.[] = []
codes (String.◌∷◌ c s) = code c ∷ codes s

-- What a C function reads at a `char *`: the bytes before the first NUL.
unfoldable pub c_string : Bytes → Bytes
c_string [] = []
c_string (b ∷ bs) = if b == 0 then [] else b ∷ c_string bs

-- Tcl's strings hold no NUL byte.
abbrev pub no_nul : Bytes → Bool
no_nul [] = true
no_nul (b ∷ bs) = not (b == 0) && no_nul bs

abbrev pub NoNul : Bytes → Type 0
NoNul s = no_nul s ≡ true

abbrev pub all_no_nul : List Bytes → Bool
all_no_nul [] = true
all_no_nul (s ∷ ss) = no_nul s && all_no_nul ss

abbrev pub AllNoNul : List Bytes → Type 0
AllNoNul ss = all_no_nul ss ≡ true

-- `Tcl_Alloc(n)`: the content is arbitrary, here the byte `junk` everywhere.
unfoldable pub alloc : ℕ → ℕ → Bytes
alloc junk n = replicate n junk

-- A size that the source sums in an `int`, up to INT_MAX; a larger sum is undefined.
abbrev pub IsInt : ℕ → Type 0
IsInt n = n < 2147483648

-- `Tcl_Alloc` of such a size.
unfoldable pub alloc_int : ℕ → ℕ → Option Bytes
unfolding alloc
alloc_int junk n = if ltb n 2147483648 then some (alloc junk n) else none

pub alloc_int-alloc : (junk n : ℕ) → IsInt n → alloc_int junk n ≡ some (alloc junk n)
unfolding alloc_int
alloc_int-alloc junk n h = rw (lt→ltb n 2147483648 h) refl

-- Stores the bytes `s` from offset `pos` on.
unfoldable pub write : Bytes → ℕ → Bytes → Option Bytes
write mem pos s =
    if leb (pos + length s) (length mem)
    then some (take pos mem ++ (s ++ drop (pos + length s) mem))
    else none

-- `sprintf(mem + pos, ...)`: the text and its terminating NUL.
unfoldable pub sprintf : Bytes → ℕ → Bytes → Option Bytes
unfolding write
sprintf mem pos s = write mem pos (s ++ 0 ∷ [])

-- `*pos++ = ...` for each byte of `s` in turn; the result has the new cursor.
unfoldable pub put_bytes : Bytes → ℕ → Bytes → Option (Bytes × ℕ)
unfolding write
put_bytes mem pos [] = some (mem, pos)
put_bytes mem pos (b ∷ bs) = write mem pos (b ∷ []) >>= λ mem'. put_bytes mem' (pos + 1) bs
