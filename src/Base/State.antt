-- ===== src/Base/State.antt =====
-- Functions on a state: a step returns its result and the new state.
infixl 5 ◌>>=◌ ◌>>◌
abbrev pub State : Type 0 → Type 0 → Type 0
State S A = S → A × S

abbrev pub pure : {S A : Type 0} → A → State S A
pure a s = (a, s)

abbrev pub ◌>>=◌ : {S A B : Type 0} → State S A → (A → State S B) → State S B
◌>>=◌ m f s = f (m s).0 (m s).1

abbrev pub ◌>>◌ : {S B : Type 0} → State S (Unit {0}) → State S B → State S B
m >> k = m >>= λ _. k
