-- ===== src/Sqlite3/Incrblob.antt =====
-- The channels on blobs of sqlite3/generic/dbi_sqlite_incrblob.c: input, output and seek by a
-- position in the blob, and the doubly linked list of the open channels. `int` values are integers;
-- a sum that leaves the range of `int` is undefined, as in C.
pub mod Bounds
pub mod Open
pub mod Tests
use tcl_dbi.Base.{
  ℕ, ◌+◌, ◌≡◌, Bool, true, false, Option, none, some, List, [], ◌++◌, ◌==◌, length, take, drop, ltb,
  leb, if◌then◌else◌, ◌>>=◌,
}
use tcl_dbi.Base.Int.{ℤ, pos, negsuc, ◌+ℤ◌, ◌-ℤ◌, ltb_ℤ}
use tcl_dbi.Memory.{Bytes}
use tcl_dbi.Sqlite3.Object.Common.{to_int32}

-- `sqlite3_blob_read` and `sqlite3_blob_write` with what their documentation says of a success: the
-- bytes asked for lie in the blob; a write changes these bytes alone. Either can fail at any time.
pub record Blobs : Type 1 where
  pub Blob : Type 0
  pub content : Blob → Bytes
  pub read : Blob → ℕ → ℤ → Option Bytes
  pub write : Blob → Bytes → ℤ → Option Blob
  pub read-content :
      (b : Blob) (n k : ℕ) (bs : Bytes)
      → read b n (pos k) ≡ some bs
      → bs ≡ take n (drop k (content b))
  pub write-content :
      (b b' : Blob) (k : ℕ) (bs : Bytes)
      → write b bs (pos k) ≡ some b'
      → content b' ≡ take k (content b) ++ (bs ++ drop (k + length bs) (content b))

-- `IncrblobChannel`, without its links
pub record Channel (Blob : Type 0) : Type 0 where
  pub blob : Blob
  pub seek_at : ℤ

-- 0 or more bytes moved, the error code set and -1, or a sum outside `int`.
pub data Moved : Type 0 where
  moved : ℕ → Moved
  refused undefined : Moved

abbrev pub in_int : ℤ → Bool
in_int (pos n) = ltb n 2147483648
in_int (negsuc n) = ltb n 2147483648

pub data SeekMode : Type 0 where
  seek_set seek_cur seek_end : SeekMode

module _ ⦃blobs : Blobs⦄ where
  open blobs use {Blob, content, read, write}

  abbrev size : Channel Blob → ℕ
  size p = length (content p.blob)

  read_some : ℕ → Channel Blob → (Moved × Bytes) × Channel Blob
  read_some n p = elim (read p.blob n p.seek_at) [
    | none ↦ ((refused, []), p)
    | some bs ↦ ((moved n, bs), record p { seek_at = p.seek_at +ℤ pos n })
  ]

  -- `nRead`, where it is more than 0
  read_count : ℤ → Channel Blob → (Moved × Bytes) × Channel Blob
  unfolding read_some
  read_count (negsuc k) p = ((moved 0, []), p)
  read_count (pos n) p = if n == 0 then ((moved 0, []), p) else read_some n p

  -- incrblobInput, with the bytes that it stores in `buf`
  unfoldable pub input : ℕ → Channel Blob → (Moved × Bytes) × Channel Blob
  unfolding read_count
  input n p =
      if in_int (p.seek_at +ℤ pos n)
      then read_count
          (if ltb_ℤ (pos (size p)) (p.seek_at +ℤ pos n) then pos (size p) -ℤ p.seek_at else pos n) p
      else ((undefined, []), p)

  -- incrblobOutput
  unfoldable pub output : Bytes → Channel Blob → Moved × Channel Blob
  output bs p =
      if in_int (p.seek_at +ℤ pos (length bs))
      then if ltb_ℤ (pos (size p)) (p.seek_at +ℤ pos (length bs))
        then (refused, p)
        else if length bs == 0
        then (moved 0, p)
        else elim (write p.blob bs p.seek_at) [
          | none ↦ (refused, p)
          | some b ↦
              (moved (length bs), record { blob = b; seek_at = p.seek_at +ℤ pos (length bs) })
        ]
      else (undefined, p)

  -- incrblobSeek: no bound is tested, and a `long` is stored in an `int`.
  unfoldable pub seek : SeekMode → ℤ → Channel Blob → ℤ × Channel Blob
  seek seek_set z p = (to_int32 z, record p { seek_at = to_int32 z })
  seek seek_cur z p = (to_int32 (p.seek_at +ℤ z), record p { seek_at = to_int32 (p.seek_at +ℤ z) })
  seek seek_end z p =
      (to_int32 (pos (size p) +ℤ z), record p { seek_at = to_int32 (pos (size p) +ℤ z) })

-- The open channels: pIncrblob, and pNext and pPrev of each.
pub record Links : Type 0 where
  pub head : Option ℕ
  pub next : ℕ → Option ℕ
  pub prev : ℕ → Option ℕ

abbrev pub update : (ℕ → Option ℕ) → ℕ → Option ℕ → ℕ → Option ℕ
update f x v y = if y == x then v else f y

-- `if (q) {q->field = v;}`
abbrev pub update_if : (ℕ → Option ℕ) → Option ℕ → Option ℕ → ℕ → Option ℕ
update_if f none v = f
update_if f (some q) v = update f q v

abbrev is_head : Option ℕ → ℕ → Bool
is_head none x = false
is_head (some h) x = h == x

-- createIncrblobChannel: a new channel in front
unfoldable pub link : ℕ → Links → Links
link x s = record {
  head = some x;
  next = update s.next x s.head;
  prev = update_if (update s.prev x none) s.head (some x);
}

-- incrblobClose: the channel leaves the list
unfoldable pub unlink : ℕ → Links → Links
unlink x s =
    let prev' = update_if s.prev (s.next x) (s.prev x) in
    let next' = update_if s.next (prev' x) (s.next x) in
    record { head = if is_head s.head x then next' x else s.head; next = next'; prev = prev' }
