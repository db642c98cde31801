-- ===== src/Action.antt =====
-- Go code that acts on the world outside it: a function from the world before to a value and the
-- world after. An error is a value, since Go's errors are.
pub mod Triples

abbrev pub Action : Type 0 → Type 0 → Type 0
Action W A = W → A × W

module _ {W A : Type 0} where
  unfoldable pub pure : A → Action W A
  pure a w = (a, w)

-- A Go function that returns nothing.
abbrev pub effect : {W : Type 0} → (W → W) → Action W (Unit {0})
effect f w = (tt, f w)

module _ {W A B : Type 0} where
  infixl 5 ◌>>=◌ ◌>>◌
  unfoldable pub ◌>>=◌ : Action W A → (A → Action W B) → Action W B
  unfolding pure
  ◌>>=◌ m f w = let (a, w') = m w in f a w'

  abbrev pub ◌>>◌ : Action W A → Action W B → Action W B
  m >> n = m >>= λ _. n
