-- ===== src/Sqlite3/Incrblob/Open.antt =====
-- The list of the open channels.
use tcl_dbi.Base.{
  ℕ, ◌≡◌, refl, sym, subst, ◌∙◌, Option, none, some, List, [], ◌∷◌, arith, ◌==◌, ◌&&◌, Bool, true,
  false, if◌then◌else◌, ==_iff, Bool-cases, inl, inr, ==_self,
}
use tcl_dbi.Sqlite3.Incrblob.{Links, link}

-- The channels from `h` on, each with the one before it.
abbrev pub Chain : Links → Option ℕ → Option ℕ → List ℕ → Type 0
Chain s before h [] = h ≡ none
Chain s before h (x ∷ xs) = (h ≡ some x) × (s.prev x ≡ before) × Chain s (some x) (s.next x) xs

abbrev pub absent : ℕ → List ℕ → Bool
absent x [] = true
absent x (y ∷ ys) = if y == x then false else absent x ys

abbrev pub distinct : List ℕ → Bool
distinct [] = true
distinct (x ∷ xs) = absent x xs && distinct xs

-- Links of other channels do not matter.
Chain-same :
    (s t : Links) (xs : List ℕ) (before h : Option ℕ)
    → ((y : ℕ) → absent y xs ≡ false → (s.next y ≡ t.next y) × (s.prev y ≡ t.prev y))
    → Chain s before h xs
    → Chain t before h xs
Chain-same s t [] before h same c = c
Chain-same s t (x ∷ xs) before h same (e, p, c) =
    let (n, q) = same x (ground arith) in
    (
      e,
      sym q ∙ p,
      subst (λ h. Chain t (some x) h xs) n
          (Chain-same s t xs (some x) (s.next x) (λ y i. same y (ground arith)) c),
    )

absent-ne : (x z : ℕ) (xs : List ℕ) → absent x xs ≡ true → absent z xs ≡ false → (x == z) ≡ false
absent-ne x z xs a b = elim (Bool-cases (x == z)) [
  | inl e ↦ cc (subst (λ y. absent y xs ≡ true) ((==_iff x z).0 e) a)
  | inr e ↦ e
]

-- Creating a channel that is not yet open puts it in front of the channels that are open, each of
-- them once in the list, and keeps their order.
pub link-Chain :
    (x : ℕ) (xs : List ℕ) (s : Links)
    → absent x xs ≡ true
    → distinct xs ≡ true
    → Chain s none s.head xs
    → Chain (link x s) none (link x s).head (x ∷ xs)
unfolding link
link-Chain x [] s a d c = (refl, rw (c, ==_self x), rw (c, ==_self x))
link-Chain x (y ∷ xs) s a d (h, p, c) =
    let n : (x == y) ≡ false = ground arith in
    let m : (y == x) ≡ false = ground arith in
    (
      refl,
      rw (h, n, ==_self x),
      (
        rw (h, ==_self x),
        rw (h, ==_self y),
        rw m (
            Chain-same s (link x s) xs (some y) (s.next y)
              (λ z i.
                let k : (z == x) ≡ false = ground (arith, absent-ne x z xs) in
                let l : (z == y) ≡ false = ground (arith, absent-ne y z xs) in (rw k, rw (h, l, k)))
              c),
      ),
    )
