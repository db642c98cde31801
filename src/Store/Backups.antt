-- ===== src/Store/Backups.antt =====
-- internal/store/backup_repo.go
use project_talos.Prelude.{
  ℕ, not, Option, none, some, List, [], ◌∷◌, ◌++◌, suc, any, where_rows, head?, ◌==◌, nat_eq,
  if◌then◌else◌,
}
use project_talos.Domain.{Backup, Error, not_found, Result, ok}
use project_talos.Store.{Database, Sqlite, first_row}
use project_talos.Action.{Action}

module _ (sqlite : Sqlite) where
  unfoldable pub create_backup : Backup → Action Database (Result Backup)
  create_backup b db =
      let id = suc db.last_backup_id in
      (
        ok (record b { id = id }),
        record db {
          backups = db.backups ++ (record b { id = id; created_at = db.clock } ∷ []);
          last_backup_id = id;
        },
      )

  unfoldable pub get_backup : ℕ → Action Database (Result Backup)
  get_backup id db = (first_row (head? (where_rows (λ b. b.id == id) db.backups)), db)

  unfoldable pub list_backups : Action Database (Result (List Backup))
  list_backups db = (ok (sqlite.descending (λ b. b.created_at) db.backups), db)

  unfoldable pub delete_backup : ℕ → Action Database (Option Error)
  delete_backup id db =
      if any (λ b. b.id == id) db.backups
      then (none, record db { backups = where_rows (λ b. not (b.id == id)) db.backups })
      else (some not_found, db)
