-- ===== src/Sqlite3/Incrblob/Bounds.antt =====
-- Input and output of a blob channel: what they move, and that they stay in the blob.
use tcl_dbi.Base.{
  ℕ, zero, suc, ◌+◌, ◌-◌, ◌≤◌, ◌<◌, ◌≡◌, refl, sym, ap, ◌∙◌, true, false, [], ◌∷◌, ◌++◌, ◌==◌, min,
  arith, length, take, drop, ltb, Bool-cases, lt→ltb, take-append-drop, take-append, ◌%◌,
  Option-cases, ◌⊎◌, inl, inr, length-take, length-drop, length-append,
}
use tcl_dbi.Base.Int.{pos, ◌+ℤ◌, ◌-ℤ◌, ltb_ℤ}
use tcl_dbi.Memory.{Bytes}
use tcl_dbi.Sqlite3.Object.Common.{to_int32}
use tcl_dbi.Sqlite3.Incrblob.{
  Blobs, Channel, Moved, moved, refused, in_int, input, seek, seek_set, read_count, read_some,
  output,
}

pair_eq : {A B : Type 0} {a a' : A} {b b' : B} → a ≡ a' → b ≡ b' → ◌≡◌ {A = A × B} (a, b) (a', b')
pair_eq p q i = (p i, q i)

pub add_pos : (a b : ℕ) → pos a +ℤ pos b ≡ pos (a + b)
unfolding ◌+ℤ◌
add_pos a b = ground arith

sub_pos : (a b : ℕ) → b ≤ a → pos a -ℤ pos b ≡ pos (a - b)
unfolding ◌-ℤ◌
sub_pos a b h = ground arith

-- A channel at place `k` of a blob.
abbrev pub standing : {Blob : Type 0} → Blob → ℕ → Channel Blob
standing b k = record { blob = b; seek_at = pos k }

module _ ⦃blobs : Blobs⦄ (n k : ℕ) (b : blobs.Blob) where
  open blobs use {Blob, content, read, write}

  abbrev pub Kept : {A : Type 0} → A × Channel Blob → Type 0
  Kept r = r.1 ≡ standing b k

  abbrev room : ℕ
  room = length (content b) - k

  -- What an input of at most `n` bytes at place `k` gives.
  abbrev pub Reads : (Moved × Bytes) × Channel Blob → Type 0
  Reads r =
      (r.0 ≡ (moved (min n room), take (min n room) (drop k (content b))))
      × (r.1 ≡ standing b (k + min n room))

  read_some-Reads :
      (m : ℕ)
      → m ≡ min n room
      → let r = read_some m (standing b k) in (r.0.0 ≡ refused) × Kept r ⊎ Reads r
  unfolding read_some
  read_some-Reads m h = elim (Option-cases (read b m (pos k))) [
    | inl f ↦ rw (f, read_some) (inl (refl, refl))
    | inr (bs, f) ↦
        rw (f, read_some)
          (inr (
            pair_eq (ap moved h)
                (blobs.read-content b m k bs f ∙ ap (λ c. take c (drop k (content b))) h),
            rw (h, add_pos) refl,
          ))
  ]

  read_count-Reads :
      (m : ℕ)
      → m ≡ min n room
      → let r = read_count (pos m) (standing b k) in (r.0.0 ≡ refused) × Kept r ⊎ Reads r
  unfolding read_count
  read_count-Reads zero h = inr (
    pair_eq (ap moved h) (ap (λ c. take c (drop k (content b))) h),
    ap (standing b) (omega arith),
  )
  read_count-Reads (suc m) h =
      let z : (suc m == 0) ≡ false = ground arith in rw z (read_some-Reads (suc m) h)

  -- An input of n bytes at a place k in the blob, where k + n is in the range of an int, either fails
  -- and leaves the channel as it is, or moves the lesser of n bytes and all that there are from k on,
  -- those of the blob, and moves the place behind them; so it then stores no more than n bytes and
  -- stays in the blob.
  pub input-Reads :
      k ≤ length (content b)
      → k + n < 2147483648
      → let r = input n (standing b k) in (r.0.0 ≡ refused) × Kept r ⊎ Reads r
  unfolding input
  input-Reads h i =
      let inside : in_int (pos (k + n)) ≡ true = lt→ltb (k + n) 2147483648 i in
      elim (Bool-cases (ltb_ℤ (pos (length (content b))) (pos (k + n)))) [
        | inl f ↦
            rw (add_pos, inside, f, sub_pos (length (content b)) k h)
              (read_count-Reads (length (content b) - k) (ground arith))
        | inr f ↦ rw (add_pos, inside, f) (read_count-Reads n (ground arith))
      ]

module _ ⦃blobs : Blobs⦄ (k : ℕ) (b : blobs.Blob) (bs : Bytes) where
  open blobs use {content, write}

  -- An output that would end behind the blob is refused as a whole, and leaves the channel as it is.
  output-refused :
      length (content b) < k + length bs
      → k + length bs < 2147483648
      → output bs (standing b k) ≡ (refused, standing b k)
  unfolding output
  output-refused h i =
      let inside : in_int (pos (k + length bs)) ≡ true = lt→ltb (k + length bs) 2147483648 i in
      let beyond : ltb_ℤ (pos (length (content b))) (pos (k + length bs)) ≡ true =
        lt→ltb _ _ (omega arith) in
      rw (add_pos, inside, beyond)

  abbrev Replaces : Moved × Channel blobs.Blob → Type 0
  Replaces r =
      (content r.1.blob ≡ take k (content b) ++ (bs ++ drop (k + length bs) (content b)))
      × (r.1.seek_at ≡ pos (k + length bs))

  length-replaced :
      k + length bs ≤ length (content b)
      → length (take k (content b) ++ (bs ++ drop (k + length bs) (content b))) ≡ length (content b)
  length-replaced h = omega (
    arith,
    length-append (take k (content b)) (bs ++ drop (k + length bs) (content b)),
    length-append bs (drop (k + length bs) (content b)),
    length-take k (content b),
    length-drop (k + length bs) (content b),
  )

  nothing-replaced :
      length bs ≡ 0 → take k (content b) ++ (bs ++ drop (k + length bs) (content b)) ≡ content b
  nothing-replaced h = empty bs h
    where
      empty :
          (bs : Bytes)
          → length bs ≡ 0
          → take k (content b) ++ (bs ++ drop (k + length bs) (content b)) ≡ content b
      empty [] e = let z : k + 0 ≡ k = omega arith in rw z (take-append-drop k (content b))
      empty (c ∷ cs) e = ground arith

  written-Replaces :
      (n : ℕ)
      → (output bs (standing b k)).0 ≡ moved n
      → Replaces (output bs (standing b k)) × (k + length bs ≤ length (content b))
  unfolding output
  written-Replaces n e = elim (Bool-cases (in_int (pos (k + length bs)))) [
    | inr f ↦ cc (rw (add_pos, f) at e)
    | inl f ↦ elim (Bool-cases (ltb_ℤ (pos (length (content b))) (pos (k + length bs)))) [
      | inl g ↦ cc (rw (add_pos, f, g) at e)
      | inr g ↦ elim (Bool-cases (length bs == 0)) [
        | inl z ↦
            rw (add_pos, f, g, z)
              ((sym (nothing-replaced (ground arith)), ap pos (ground arith)), ground arith)
        | inr z ↦ elim (Option-cases (write b bs (pos k))) [
          | inl w ↦ cc (rw (add_pos, f, g, z, w, output) at e)
          | inr (b', w) ↦
              rw (add_pos, f, g, z, w, output)
                ((blobs.write-content b b' k bs w, add_pos k (length bs)), ground arith)
        ]
      ]
    ]
  ]

  -- An output that moves its bytes keeps the size of the blob, replaces the bytes from the place on
  -- and no others, and moves the place behind them.
  pub output-replaces :
      (n : ℕ)
      → (output bs (standing b k)).0 ≡ moved n
      → let c = (output bs (standing b k)).1 in
        (content c.blob ≡ take k (content b) ++ (bs ++ drop (k + length bs) (content b)))
        × (length (content c.blob) ≡ length (content b))
        × (c.seek_at ≡ pos (k + length bs))
  output-replaces n e =
      let ((c, s), h) = written-Replaces n e in (c, ap length c ∙ length-replaced h, s)

to_int32_small : (k : ℕ) → k < 2147483648 → to_int32 (pos k) ≡ pos k
to_int32_small k h =
    let m : k % 4294967296 ≡ k = omega arith in
    let l : ltb k 2147483648 ≡ true = lt→ltb k 2147483648 h in rw (m, l)

drop-take : (k : ℕ) (xs ys : Bytes) → k ≤ length xs → drop k (take k xs ++ ys) ≡ ys
drop-take zero xs ys h = refl
drop-take (suc k) [] ys h = ground arith
drop-take (suc k) (x ∷ xs) ys h = drop-take k xs ys (omega arith)

module _ ⦃blobs : Blobs⦄ (k n : ℕ) (b : blobs.Blob) (bs : Bytes) where
  open blobs use {content}

  -- Bytes written at a place, after a seek back to this place, are the bytes that the next input
  -- reads there, unless SQLite fails to read.
  pub input-seek-output :
      k + length bs < 2147483648
      → (output bs (standing b k)).0 ≡ moved n
      → let r = input (length bs) (seek seek_set (pos k) (output bs (standing b k)).1).1 in
        (r.0.0 ≡ refused) ⊎ ((r.0.0 ≡ moved (length bs)) × (r.0.1 ≡ bs))
  unfolding seek
  input-seek-output h e =
      let ((c, s), l) = written-Replaces k b bs n e in
      let b' = (output bs (standing b k)).1.blob in
      let size = length-replaced k b bs l in
      let z : to_int32 (pos k) ≡ pos k = to_int32_small k (omega arith) in
      let m : min (length bs) (length (content b') - k) ≡ length bs = omega (arith, ap length c) in
      rw z (elim (input-Reads (length bs) k b' (omega (arith, ap length c)) h) [
        | inl (f, g) ↦ inl f
        | inr (f, g) ↦ inr (
          ap (λ r. r.0) f ∙ ap moved m,
          ap (λ r. r.1) f ∙ rw (m, c, drop-take k (content b) _ (omega arith)) (take-append bs _),
        )
      ])
