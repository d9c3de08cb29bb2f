-- ===== src/Memory/Laws.antt =====
-- A buffer filled from the left: what is written so far, and what is left of the allocation.
use tcl_dbi.Base.{
  ℕ, suc, ◌+◌, ◌≤◌, ◌≡◌, ◌∙◌, true, some, [], ◌∷◌, ◌++◌, append_assoc, arith, leb, le→leb, length,
  drop, length-append, length-replicate, take-append,
}
use tcl_dbi.Memory.{Bytes, alloc, write, sprintf}

pub length-alloc : (junk n : ℕ) → length (alloc junk n) ≡ n
unfolding alloc
length-alloc junk n = length-replicate n junk

drop-append_add : (xs ys : Bytes) (n : ℕ) → drop (length xs + n) (xs ++ ys) ≡ drop n ys
drop-append_add [] ys n = let e : 0 + n ≡ n = omega arith in rw e
drop-append_add (x ∷ xs) ys n =
    let e : suc (length xs) + n ≡ suc (length xs + n) = omega arith in
    rw e (drop-append_add xs ys n)

-- A store at the end of what is written fits in what is left, and eats it up.
pub write-append :
    (done rest s : Bytes) (pos : ℕ)
    → pos ≡ length done
    → length s ≤ length rest
    → write (done ++ rest) pos s ≡ some (done ++ (s ++ drop (length s) rest))
unfolding write
write-append done rest s pos e h =
    let fits : leb (pos + length s) (length (done ++ rest)) ≡ true =
      le→leb _ _ (omega (arith, length-append done rest)) in
    rw (fits, e, take-append, drop-append_add)

-- After `sprintf` the cursor may step over the text: the NUL is the first of the bytes left.
pub sprintf-append :
    (done rest s : Bytes) (pos : ℕ)
    → pos ≡ length done
    → length s + 1 ≤ length rest
    → sprintf (done ++ rest) pos s ≡ some (done ++ (s ++ 0 ∷ drop (length s + 1) rest))
unfolding sprintf
sprintf-append done rest s pos e h =
    let n : length (s ++ 0 ∷ []) ≡ length s + 1 = length-append s (0 ∷ []) in
    write-append done rest (s ++ 0 ∷ []) pos e (omega arith) ∙ rw (n, append_assoc)
