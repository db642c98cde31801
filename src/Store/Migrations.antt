-- ===== src/Store/Migrations.antt =====
-- internal/store/migrations.go: the runner of the migrations. A statement's SQL is run by SQLite; the
-- model keeps which statements have run, and which versions the table schema_migrations has.
use project_talos.Prelude.{
  ℕ, zero, suc, ◌<>◌, Bool, true, false, not, ◌&&◌, Option, none, some, List, [], ◌∷◌, ◌++◌, any,
  leb, show, ◌==◌, nat_eq, if◌then◌else◌,
}
use project_talos.Domain.{Error, message, wrap}

pub record Schema : Type 0 where
  -- the rows of schema_migrations
  pub versions : List ℕ
  -- the migrations whose statement has run, in order
  pub executed : List ℕ

-- SQLite: the error of a migration's statement, and of a row of schema_migrations, if there is one
pub record Sql : Type 0 where
  pub statement_error : ℕ → Schema → Option Error
  pub row_error : ℕ → Schema → Option Error

-- `len(allMigrations)`
abbrev pub migration_count : ℕ
migration_count = 28

-- `allMigrations` has the keys from 1 to its length.
abbrev pub has_statement : ℕ → Bool
has_statement v = leb 1 v && leb v migration_count

abbrev pub larger : ℕ → ℕ → ℕ
larger a b = if leb a b then b else a

-- `COALESCE(MAX(version), 0)`
abbrev pub max_version : List ℕ → ℕ
max_version [] = 0
max_version (v ∷ versions) = larger v (max_version versions)

-- The first migration makes the table of users.
abbrev pub has_users_table : Schema → Bool
has_users_table s = any (λ v. v == 1) s.executed

abbrev pub with_version : ℕ → Schema → Schema
with_version v s = record s { versions = s.versions ++ (v ∷ []) }

-- INSERT OR IGNORE
abbrev pub seed_version : ℕ → Schema → Schema
seed_version v s = if any (λ x. x == v) s.versions then s else with_version v s

abbrev pub with_statement : ℕ → Schema → Schema
with_statement v s = record s { executed = s.executed ++ (v ∷ []) }

abbrev pub Outcome : Type 0
Outcome = Option Error × Schema

module _ (sql : Sql) where
  unfoldable pub seeded : ℕ → Option Error → Schema → (Schema → Outcome) → Outcome
  seeded v (some e) s rest = (some (wrap ("seed version " <> show v) e), s)
  seeded v none s rest = rest (seed_version v s)

  -- The loop over the versions of a database from before the tracking, of which `n` are left after
  -- `v`. The source takes them in any order.
  unfoldable pub seed : ℕ → ℕ → Schema → (Schema → Outcome) → Outcome
  unfolding seeded
  seed zero v s rest = rest s
  seed (suc n) v s rest = seeded (suc v) (sql.row_error (suc v) s) s (λ s'. seed n (suc v) s' rest)

  unfoldable pub recorded : ℕ → Option Error → Schema → (Schema → Outcome) → Outcome
  recorded v (some e) s rest = (some (wrap ("record migration " <> show v) e), s)
  recorded v none s rest = rest (with_version v s)

  unfoldable pub executed : ℕ → Option Error → Schema → (Schema → Outcome) → Outcome
  unfolding recorded
  executed v (some e) s rest = (some (wrap ("migration " <> show v) e), s)
  executed v none s rest = let s' = with_statement v s in recorded v (sql.row_error v s') s' rest

  -- One migration
  unfoldable pub run_version : ℕ → Schema → (Schema → Outcome) → Outcome
  unfolding executed
  run_version v s rest =
      if not (has_statement v)
      then (some (message ("migration " <> show v <> ": missing statement")), s)
      else executed v (sql.statement_error v s) s rest

  -- The loop over the versions, of which `n` are left after `v`
  unfoldable pub apply : ℕ → ℕ → ℕ → Schema → Outcome
  unfolding run_version
  apply zero v max s = (none, s)
  apply (suc n) v max s =
      let rest = apply n (suc v) max in
      if leb (suc v) max then rest s else run_version (suc v) s rest

  -- The first argument is whether the database is from before the tracking.
  unfoldable pub run_from : Bool → ℕ → Schema → Outcome
  unfolding seed apply
  run_from true max s = seed migration_count 0 s (apply migration_count 0 migration_count)
  run_from false max s = apply migration_count 0 max s

  unfoldable pub started : ℕ → Schema → Outcome
  unfolding run_from
  started max s = run_from (max == 0 && has_users_table s) max s

  -- `migrate`, on a database that answers its queries
  unfoldable pub migrate : Schema → Outcome
  unfolding started
  migrate s = started (max_version s.versions) s
