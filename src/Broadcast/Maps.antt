-- ===== src/Broadcast/Maps.antt =====
-- The map of inner maps: what a write leaves at each deploy.
use project_talos.Prelude.{
  ℕ, ◌≡◌, inl, inr, Option, some, List, [], ◌∷◌, ◌==◌, nat_eq, if◌then◌else◌, update, Bool-cases,
}
use project_talos.Broadcast.{subs_at, set_subs}

module _ (m : ℕ → Option (List ℕ)) (d e : ℕ) where
  pub subs_at-update :
      (ids : List ℕ) → subs_at (update m d (some ids)) e ≡ (if d == e then ids else subs_at m e)
  unfolding subs_at
  subs_at-update ids = elim (Bool-cases (d == e)) [
    | inl p ↦ rw (p, subs_at)
    | inr p ↦ rw (p, subs_at)
  ]

  pub subs_at-set_subs :
      (ids : List ℕ) → subs_at (set_subs d ids m) e ≡ (if d == e then ids else subs_at m e)
  unfolding subs_at
  subs_at-set_subs [] = elim (Bool-cases (d == e)) [
    | inl p ↦ rw (p, subs_at)
    | inr p ↦ rw (p, subs_at)
  ]
  subs_at-set_subs (i ∷ ids) = elim (Bool-cases (d == e)) [
    | inl p ↦ rw (p, subs_at)
    | inr p ↦ rw (p, subs_at)
  ]
