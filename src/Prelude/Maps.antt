-- ===== src/Prelude/Maps.antt =====
-- Go maps with integer keys, as functions, and sets of integers, as lists.
use Prim.Native.Nat.{ℕ}
use mathlib.Core.Path.{◌≡◌}
use mathlib.Core.Bool.{Bool, true, false}
use mathlib.Core.List.{List, [], ◌∷◌}
use native.Mathlib.Omega.{arith}
use project_talos.Prelude.Tests.{◌==◌, nat_eq, if◌then◌else◌}

-- `m[k] = v`
abbrev pub update {ℓ} : {V : Type ℓ} → (ℕ → V) → ℕ → V → ℕ → V
update m k v j = if k == j then v else m j

abbrev pub contains : ℕ → List ℕ → Bool
contains a [] = false
contains a (x ∷ xs) = let rest = contains a xs in if x == a then true else rest

-- `delete(s, a)`
abbrev pub remove : ℕ → List ℕ → List ℕ
remove a [] = []
remove a (x ∷ xs) = let rest = remove a xs in if x == a then rest else x ∷ rest

abbrev pub Unique : List ℕ → Type 0
Unique [] = Unit
Unique (x ∷ xs) = (contains x xs ≡ false) × Unique xs

pub contains-remove :
    (a b : ℕ) (xs : List ℕ) → contains a (remove b xs) ≡ (if b == a then false else contains a xs)
contains-remove a b [] = ground arith
contains-remove a b (x ∷ xs) = ground (arith, contains-remove a b xs)

pub remove-Unique : (a : ℕ) (xs : List ℕ) → Unique xs → Unique (remove a xs)
remove-Unique a [] u = tt
remove-Unique a (x ∷ xs) u = ground (arith, remove-Unique a xs u.1, contains-remove x a xs)

pub contains_head : (a : ℕ) (xs : List ℕ) → contains a (a ∷ xs) ≡ true
contains_head a xs = ground arith

pub contains_later : (a b : ℕ) (xs : List ℕ) → contains a xs ≡ true → contains a (b ∷ xs) ≡ true
contains_later a b xs h = ground arith
