-- ===== src/Memory/Yields.antt =====
-- Total correctness of a step that can fault: it returns, and what it returns satisfies `P`.
use tcl_dbi.Base.{◌≡◌, Option, none, some, ◌>>=◌}

pub data Yields {A : Type 0} (P : A → Type 0) : Option A → Type 0 where
  yields : {a : A} → P a → Yields P (some a)

module _ {A : Type 0} {P : A → Type 0} where
  pub bind :
      {B : Type 0} {Q : B → Type 0} {m : Option A} {f : A → Option B}
      → Yields P m
      → ((a : A) → P a → Yields Q (f a))
      → Yields Q (m >>= f)
  bind (yields p) next = next _ p

-- A step that yields one value is that value.
pub eq_some : {A : Type 0} {a : A} {m : Option A} → Yields (λ b. b ≡ a) m → m ≡ some a
eq_some (yields e) = λ i. some (e i)

-- The same where the rest is taken by cases.
pub then_yields :
    {A B : Type 0} {P : A → Type 0} {Q : B → Type 0} {m : Option A} {f : A → Option B}
    → Yields P m
    → ((a : A) → P a → Yields Q (f a))
    → Yields Q (elim m [ none ↦ none | some a ↦ f a ])
then_yields (yields p) next = next _ p

pub weaken :
    {A : Type 0} {P Q : A → Type 0} {m : Option A} → Yields P m → ((a : A) → P a → Q a) → Yields Q m
weaken (yields p) next = yields (next _ p)
