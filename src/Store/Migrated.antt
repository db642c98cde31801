-- ===== src/Store/Migrated.antt =====
-- internal/store/migrations.go: what a run of the migrations leaves.
use project_talos.Prelude.{
  ℕ, zero, suc, ◌+◌, ◌<◌, ◌≤◌, ◌≡◌, refl, ◌∙◌, ap, Bool, true, false, ◌&&◌, Option, none, List, [],
  ◌∷◌, ◌++◌, leb, ◌==◌, nat_eq, Bool-cases, inl, inr, arith,
}
use project_talos.Domain.{Error}
use project_talos.Store.Migrations.{
  Schema, Sql, migration_count, has_statement, larger, max_version, has_users_table, with_statement,
  recorded, executed, run_version, apply, run_from, started, migrate,
}

abbrev pub up_to : ℕ → List ℕ
up_to zero = []
up_to (suc n) = up_to n ++ (suc n ∷ [])

-- The migrations up to a version have run, in order and once each, and are recorded.
abbrev pub at_version : ℕ → Schema
at_version k = record { versions = up_to k; executed = up_to k }

-- The statements run in their order, and their rows are stored.
pub record Runs (sql : Sql) : Type 0 where
  pub statements : (k : ℕ) → k < migration_count → sql.statement_error (suc k) (at_version k) ≡ none
  pub rows : (v : ℕ) (s : Schema) → sql.row_error v s ≡ none

max_version-append :
    (xs : List ℕ) (v : ℕ) → max_version (xs ++ (v ∷ [])) ≡ larger (max_version xs) v
max_version-append [] v = ground arith
max_version-append (x ∷ xs) v = ground (arith, max_version-append xs v)

max_version-up_to : (k : ℕ) → max_version (up_to k) ≡ k
max_version-up_to zero = refl
max_version-up_to (suc k) =
    max_version-append (up_to k) (suc k) ∙ rw (max_version-up_to k) (ground arith)

module _ (sql : Sql) (runs : Runs sql) where
  run_version-next :
      (k : ℕ) (rest : Schema → Option Error × Schema)
      → k < migration_count
      → run_version sql (suc k) (at_version k) rest ≡ rest (at_version (suc k))
  unfolding run_version executed recorded
  run_version-next k rest h =
      let known : has_statement (suc k) ≡ true = ground (arith, h) in
      rw (known) (
        rw (runs.statements k h)
          (rw (runs.rows (suc k) (with_statement (suc k) (at_version k))) refl))

  apply-rest :
      (n k max : ℕ)
      → k + n ≡ migration_count
      → max ≤ k
      → apply sql n k max (at_version k) ≡ (none, at_version migration_count)
  unfolding apply
  apply-rest zero k max e h =
      let last : k ≡ migration_count = omega (arith, e) in ap (λ v. (none, at_version v)) last
  apply-rest (suc n) k max e h =
      let pending : leb (suc k) max ≡ false = ground (arith, h) in
      rw (pending) (
        run_version-next k (apply sql n (suc k) max) (omega (arith, e))
        ∙ apply-rest n (suc k) max (omega (arith, e)) (omega (arith, h)))

  apply-pending :
      (n v k : ℕ)
      → v + n ≡ migration_count
      → v ≤ k
      → k ≤ migration_count
      → apply sql n v k (at_version k) ≡ (none, at_version migration_count)
  unfolding apply
  apply-pending zero v k e l h =
      let last : k ≡ migration_count = omega (arith, e, l, h) in ap (λ x. (none, at_version x)) last
  apply-pending (suc n) v k e l h = elim (Bool-cases (leb (suc v) k)) [
    | inl p ↦ rw (p) (apply-pending n (suc v) k (omega (arith, e)) (ground (arith, p)) h)
    | inr p ↦
        let same : v ≡ k = ground (arith, p, l) in
        rw (p) (
          ap (λ x. run_version sql (suc x) (at_version k) (apply sql n (suc x) k)) same
          ∙ run_version-next k (apply sql n (suc k) k) (omega (arith, e, same))
          ∙ apply-rest n (suc k) k (omega (arith, e, same)) (omega arith))
  ]

  tracked : (k : ℕ) → (k == 0 && has_users_table (at_version k)) ≡ false
  tracked zero = refl
  tracked (suc k) = ground arith

  run_from-pending :
      (k : ℕ) (before_tracking : Bool)
      → before_tracking ≡ false
      → k ≤ migration_count
      → run_from sql before_tracking k (at_version k) ≡ (none, at_version migration_count)
  unfolding run_from
  run_from-pending k true t h = absurd cc
  run_from-pending k false t h = apply-pending migration_count 0 k refl (omega arith) h

  started-pending :
      (k : ℕ)
      → k ≤ migration_count
      → started sql k (at_version k) ≡ (none, at_version migration_count)
  unfolding started
  started-pending k h = run_from-pending k (k == 0 && has_users_table (at_version k)) (tracked k) h

  -- From any version on, the empty database included, and with statements that run in their order,
  -- the migrations succeed and leave every statement run once, in order, and recorded. A database of
  -- the last version does not change.
  pub migrated :
      (k : ℕ)
      → k ≤ migration_count
      → migrate sql (at_version k) ≡ (none, at_version migration_count)
  unfolding migrate
  migrated k h = ap (λ m. started sql m (at_version k)) (max_version-up_to k) ∙ started-pending k h
