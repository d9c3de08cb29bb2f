-- ===== src/Sqlite3/Incrblob/Tests.antt =====
-- Blobs that are their bytes, and the theorems on channels at concrete arguments.
use tcl_dbi.Base.{
  ℕ, ◌+◌, ◌≡◌, refl, Option, none, some, [], ◌∷◌, ◌++◌, arith, length, take, drop, ◌⊎◌,
}
use tcl_dbi.Base.Int.{ℤ, pos, negsuc, ◌+ℤ◌}
use tcl_dbi.Memory.{Bytes, codes}
use tcl_dbi.Sqlite3.Incrblob.{
  Blobs, Links, link, unlink, input, output, seek, seek_set, moved, refused,
}
use tcl_dbi.Sqlite3.Incrblob.Bounds.{
  standing, Kept, Reads, input-Reads, output-replaces, input-seek-output,
}
use tcl_dbi.Sqlite3.Incrblob.Open.{Chain, link-Chain}

abbrev read_bytes : Bytes → ℕ → ℤ → Option Bytes
read_bytes b n (pos k) = some (take n (drop k b))
read_bytes b n (negsuc k) = none

abbrev write_bytes : Bytes → Bytes → ℤ → Option Bytes
write_bytes b bs (pos k) = some (take k b ++ (bs ++ drop (k + length bs) b))
write_bytes b bs (negsuc k) = none

read_bytes-content :
    (b : Bytes) (n k : ℕ) (bs : Bytes) → read_bytes b n (pos k) ≡ some bs → bs ≡ take n (drop k b)
read_bytes-content b n k bs e = ground arith

write_bytes-content :
    (b b' : Bytes) (k : ℕ) (bs : Bytes)
    → write_bytes b bs (pos k) ≡ some b'
    → b' ≡ take k b ++ (bs ++ drop (k + length bs) b)
write_bytes-content b b' k bs e = ground arith

abbrev bytes_blobs : Blobs
bytes_blobs = record {
  Blob = Bytes;
  content = λ b. b;
  read = read_bytes;
  write = write_bytes;
  read-content = read_bytes-content;
  write-content = write_bytes-content;
}

abbrev hello : Bytes
hello = codes "hello"

input-Reads_example :
    let r = input ⦃blobs = bytes_blobs⦄ 9 (standing hello 2) in
    (r.0.0 ≡ refused) × Kept ⦃blobs = bytes_blobs⦄ 9 2 hello r
    ⊎ Reads ⦃blobs = bytes_blobs⦄ 9 2 hello r
input-Reads_example = input-Reads ⦃blobs = bytes_blobs⦄ 9 2 hello (omega arith) (omega arith)

output-runs : (output ⦃blobs = bytes_blobs⦄ (codes "ipp") (standing hello 1)).0 ≡ moved 3
unfolding output ◌+ℤ◌
output-runs = refl

output-replaces_example :
    let c = (output ⦃blobs = bytes_blobs⦄ (codes "ipp") (standing hello 1)).1 in
    (c.blob ≡ codes "hippo") × (length c.blob ≡ 5) × (c.seek_at ≡ pos 4)
output-replaces_example = output-replaces ⦃blobs = bytes_blobs⦄ 1 hello (codes "ipp") 3 output-runs

input-seek-output_example :
    let r =
      input ⦃blobs = bytes_blobs⦄ 3
        (seek ⦃blobs = bytes_blobs⦄ seek_set
          (pos 1)
          (output ⦃blobs = bytes_blobs⦄ (codes "ipp") (standing hello 1)).1).1 in
    (r.0.0 ≡ refused) ⊎ ((r.0.0 ≡ moved 3) × (r.0.1 ≡ codes "ipp"))
input-seek-output_example =
    input-seek-output ⦃blobs = bytes_blobs⦄ 1 3 hello (codes "ipp") (omega arith) output-runs

abbrev no_channel : Links
no_channel = record { head = none; next = λ y. none; prev = λ y. none }

-- Of three channels the one in the middle is closed.
unlink-runs :
    let s = unlink 2 (link 3 (link 2 (link 1 no_channel))) in
    (s.head ≡ some 3) × (s.next 3 ≡ some 1) × (s.prev 1 ≡ some 3)
unfolding link unlink
unlink-runs = (refl, refl, refl)

-- Two channels are open.
abbrev two_open : Links
two_open = link 2 (link 1 no_channel)

link-Chain_example : Chain (link 3 two_open) none (link 3 two_open).head (3 ∷ 2 ∷ 1 ∷ [])
link-Chain_example = link-Chain 3 (2 ∷ 1 ∷ []) two_open refl refl (
    link-Chain 2 (1 ∷ []) (link 1 no_channel) refl refl (link-Chain 1 [] no_channel refl refl refl))
