-- ===== src/Store/Interrupted.antt =====
-- internal/store/migrations.go: a start of Talos after the first migration was interrupted.
use project_talos.Prelude.{
  ℕ, zero, suc, ◌+◌, ◌≤◌, ◌≡◌, refl, ◌∙◌, ap, Bool, true, false, ◌||◌, none, some, List, [], ◌∷◌,
  ◌++◌, any, leb, show, ◌==◌, nat_eq, arith,
}
use project_talos.Domain.{Error, wrap}
use project_talos.Store.Migrations.{
  Schema, Sql, Outcome, migration_count, with_statement, seeded, seed, recorded, executed,
  run_version, apply, run_from, started, migrate,
}
use project_talos.Store.Migrated.{up_to, at_version}

any-append : (p : ℕ → Bool) (xs : List ℕ) (v : ℕ) → any p (xs ++ (v ∷ [])) ≡ (any p xs || p v)
any-append p [] v = ground arith
any-append p (x ∷ xs) v = ground (arith, any-append p xs v)

lacks-next : (v k : ℕ) → k ≤ v → any (λ x. x == suc v) (up_to k) ≡ false
lacks-next v zero h = refl
lacks-next v (suc k) h =
    any-append (λ x. x == suc v) (up_to k) (suc k)
    ∙ ground (arith, lacks-next v k (omega (arith, h)), h)

-- Only the users' table was made, and the versions up to one are recorded.
abbrev pub only_users : ℕ → Schema
only_users k = record { versions = up_to k; executed = 1 ∷ [] }

module _ (sql : Sql) where
  apply-nothing : (n v max : ℕ) (s : Schema) → v + n ≤ max → apply sql n v max s ≡ (none, s)
  unfolding apply
  apply-nothing zero v max s h = refl
  apply-nothing (suc n) v max s h =
      let past : leb (suc v) max ≡ true = ground (arith, h) in
      rw (past) (apply-nothing n (suc v) max s (omega (arith, h)))

  module _ (rows : (v : ℕ) (s : Schema) → sql.row_error v s ≡ none) where
    seed-rest :
        (n v : ℕ) (rest : Schema → Outcome)
        → v + n ≡ migration_count
        → seed sql n v (only_users v) rest ≡ rest (only_users migration_count)
    unfolding seed seeded
    seed-rest zero v rest h =
        let last : v ≡ migration_count = omega (arith, h) in ap (λ k. rest (only_users k)) last
    seed-rest (suc n) v rest h =
        rw (rows (suc v) (only_users v))
          (rw (lacks-next v v (omega arith)) (seed-rest n (suc v) rest (omega (arith, h))))

    run_from-untracked : run_from sql true 0 (only_users 0) ≡ (none, only_users migration_count)
    unfolding run_from
    run_from-untracked =
        seed-rest migration_count 0 (apply sql migration_count 0 migration_count) refl
        ∙ apply-nothing migration_count 0 migration_count (only_users migration_count) (omega arith)

    restarted-untracked : migrate sql (only_users 0) ≡ (none, only_users migration_count)
    unfolding migrate started
    restarted-untracked = run_from-untracked

module _ (broken : Sql) (e : Error) (statement : broken.statement_error 1 (at_version 0) ≡ none)
    (row : broken.row_error 1 (with_statement 1 (at_version 0)) ≡ some e) where
  first_step :
      (n : ℕ)
      → apply broken (suc n) 0 0 (at_version 0) ≡ (some (wrap "record migration 1" e), only_users 0)
  unfolding apply run_version executed recorded show
  first_step n = rw (statement) (rw (row) refl)

  first_run :
      (n : ℕ)
      → n ≡ migration_count
      → apply broken n 0 0 (at_version 0) ≡ (some (wrap "record migration 1" e), only_users 0)
  first_run zero h = absurd (omega (arith, h))
  first_run (suc n) h = first_step n

  run_from-fresh :
      run_from broken false 0 (at_version 0) ≡ (some (wrap "record migration 1" e), only_users 0)
  unfolding run_from
  run_from-fresh = first_run migration_count refl

  broken_run : migrate broken (at_version 0) ≡ (some (wrap "record migration 1" e), only_users 0)
  unfolding migrate started
  broken_run = run_from-fresh

-- A first start on an empty database whose statement runs and whose row for it cannot be stored
-- fails; the next start, with nothing in its way, succeeds with all versions recorded, and the users'
-- table is the only one that was ever made.
pub interrupted_start :
    (broken sql : Sql) (e : Error)
    → broken.statement_error 1 (at_version 0) ≡ none
    → broken.row_error 1 (with_statement 1 (at_version 0)) ≡ some e
    → ((v : ℕ) (s : Schema) → sql.row_error v s ≡ none)
    → (migrate broken (at_version 0) ≡ (some (wrap "record migration 1" e), only_users 0))
      × (migrate sql (migrate broken (at_version 0)).1 ≡ (none, only_users migration_count))
interrupted_start broken sql e statement row rows =
    let failed = broken_run broken e statement row in
    (failed, ap (λ r. migrate sql r.1) failed ∙ restarted-untracked sql rows)
