-- ===== src/Store/Rows.antt =====
-- Lists as tables: what a WHERE, an UPDATE and an INSERT do to the rows that pass a test.
use project_talos.Prelude.{
  ◌≡◌, refl, subst, Bool, true, false, not, List, [], ◌∷◌, ◌++◌, any, All, where_rows, update_where,
  Bool-cases, inl, inr, if◌then◌else◌, arith,
}

-- What holds of both branches holds of the test.
pub if-both {ℓ κ} :
    {A : Type ℓ} (P : A → Type κ) (b : Bool) (x y : A)
    → (b ≡ true → P x)
    → (b ≡ false → P y)
    → P (if b then x else y)
if-both P true x y h k = h refl
if-both P false x y h k = k refl

module _ {ℓ} {A : Type ℓ} where
  pub All-where_rows {κ μ} :
      {P : A → Type κ} {Q : A → Type μ} (q : A → Bool)
      → ((x : A) → q x ≡ true → P x → Q x)
      → (xs : List A) → All P xs
      → All Q (where_rows q xs)
  All-where_rows q f [] h = tt
  All-where_rows {P = P} {Q = Q} q f (x ∷ xs) h =
      if-both (All Q) (q x) _ _ (λ p. (f x p h.0, All-where_rows {P = P} {Q = Q} q f xs h.1))
        (λ p. All-where_rows {P = P} {Q = Q} q f xs h.1)

  pub where_rows-pass {κ} :
      {Q : A → Type κ} (q : A → Bool)
      → ((x : A) → q x ≡ true → Q x)
      → (xs : List A) → All Q (where_rows q xs)
  where_rows-pass q f [] = tt
  where_rows-pass {Q = Q} q f (x ∷ xs) =
      if-both (All Q) (q x) _ _ (λ p. (f x p, where_rows-pass {Q = Q} q f xs))
        (λ p. where_rows-pass {Q = Q} q f xs)

  pub any-append : (p : A → Bool) (xs ys : List A) → any p xs ≡ true → any p (xs ++ ys) ≡ true
  any-append p [] ys h = ground arith
  any-append p (x ∷ xs) ys h = ground (arith, any-append p xs ys)

  pub any-update_where :
      (p q : A → Bool) (f : A → A)
      → ((x : A) → q x ≡ true → p (f x) ≡ p x)
      → (xs : List A) → any p (update_where q f xs) ≡ any p xs
  any-update_where p q f h [] = refl
  any-update_where p q f h (x ∷ xs) = ground (arith, h x, any-update_where p q f h xs)

  pub any-where_rows :
      (p q : A → Bool)
      → ((x : A) → p x ≡ true → q x ≡ true)
      → (xs : List A) → any p xs ≡ true
      → any p (where_rows q xs) ≡ true
  any-where_rows p q h [] k = k
  any-where_rows p q h (x ∷ xs) k = ground (arith, h x, any-where_rows p q h xs)

  -- A row that is not among those that pass `q` is among those that do not.
  pub any-where_not :
      (p q : A → Bool) (xs : List A)
      → any p xs ≡ true
      → any p (where_rows q xs) ≡ false
      → any p (where_rows (λ x. not (q x)) xs) ≡ true
  any-where_not p q [] h k = h
  any-where_not p q (x ∷ xs) h k = ground (arith, any-where_not p q xs)

  pub All-update_where {κ} :
      {P : A → Type κ} (q : A → Bool) (f : A → A)
      → ((x : A) → q x ≡ true → P x → P (f x))
      → (xs : List A) → All P xs
      → All P (update_where q f xs)
  All-update_where q f g [] h = tt
  All-update_where {P = P} q f g (x ∷ xs) h =
      if-both (All P) (q x) _ _ (λ p. (g x p h.0, All-update_where {P = P} q f g xs h.1))
        (λ p. (h.0, All-update_where {P = P} q f g xs h.1))

  -- What holds of the rows that pass holds of every row, if it passes.
  pub All-of-where_rows {κ} :
      (P : A → Type κ) (q : A → Bool) (xs : List A)
      → All P (where_rows q xs)
      → All (λ x. q x ≡ true → P x) xs
  All-of-where_rows P q [] h = tt
  All-of-where_rows P q (x ∷ xs) h = elim (Bool-cases (q x)) [
    | inl p ↦
        let h' : P x × All P (where_rows q xs) =
          subst (λ b. All P (if b then x ∷ where_rows q xs else where_rows q xs)) p h in
        ((λ _. h'.0), All-of-where_rows P q xs h'.1)
    | inr p ↦
        let h' : All P (where_rows q xs) =
          subst (λ b. All P (if b then x ∷ where_rows q xs else where_rows q xs)) p h in
        ((λ r. absurd cc), All-of-where_rows P q xs h')
  ]
