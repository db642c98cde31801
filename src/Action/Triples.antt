-- ===== src/Action/Triples.antt =====
-- Hoare triples over actions: from a world where `P` holds, the value and the world after satisfy
-- `Q`. One rule for each way to build an action.
use project_talos.Prelude.{◌≡◌, refl, Bool, true, false, if◌then◌else◌}
use project_talos.Action.{Action, pure, ◌>>=◌}

pub record Triple {W A : Type 0} (P : W → Type 0) (m : Action W A) (Q : A → W → Type 0)
    : Type 0 where
  pub at : (w : W) → P w → Q (m w).0 (m w).1

-- `P` holds after, if it held before.
abbrev pub Keeps : {W A : Type 0} → (W → Type 0) → Action W A → Type 0
Keeps P m = Triple P m (λ _ w. P w)

module _ {W A : Type 0} {P : W → Type 0} {Q : A → W → Type 0} where
  pub Triple-pure : (a : A) → ((w : W) → P w → Q a w) → Triple P (pure a) Q
  unfolding pure
  Triple-pure a h = record { at = h }

  pub Triple-if :
      (b : Bool) (m n : Action W A) → Triple P m Q → Triple P n Q → Triple P (if b then m else n) Q
  Triple-if true m n h k = h
  Triple-if false m n h k = k

  pub Triple-if_eq :
      (b : Bool) (m n : Action W A)
      → (b ≡ true → Triple P m Q)
      → (b ≡ false → Triple P n Q)
      → Triple P (if b then m else n) Q
  Triple-if_eq true m n h k = h refl
  Triple-if_eq false m n h k = k refl

  pub Triple-weaken :
      {R : A → W → Type 0} (m : Action W A)
      → ((a : A) (w : W) → Q a w → R a w)
      → Triple P m Q
      → Triple P m R
  Triple-weaken m f h = record { at = λ w p. f (m w).0 (m w).1 (h.at w p) }

module _ {W A B : Type 0} {P : W → Type 0} {R : B → W → Type 0} where
  pub Triple-bind :
      {Q : A → W → Type 0} (m : Action W A) (f : A → Action W B)
      → Triple P m Q
      → ((a : A) → Triple (Q a) (f a) R)
      → Triple P (m >>= f) R
  unfolding ◌>>=◌
  Triple-bind m f h k = record { at = λ w p. (k (m w).0).at (m w).1 (h.at w p) }

  -- The first part keeps `P`.
  pub after :
      (m : Action W A) (f : A → Action W B)
      → Keeps P m
      → ((a : A) → Triple P (f a) R)
      → Triple P (m >>= f) R
  after m f h k = Triple-bind {Q = λ _ w. P w} m f h k

  -- The second part may use that the first part answered with `a` in some world.
  pub after_reply :
      (m : Action W A) (f : A → Action W B)
      → Keeps P m
      → ((w : W) (a : A) → (m w).0 ≡ a → Triple P (f a) R)
      → Triple P (m >>= f) R
  unfolding ◌>>=◌
  after_reply m f h k = record { at = λ w p. (k w (m w).0 refl).at (m w).1 (h.at w p) }
