-- ===== src/Backups.antt =====
-- internal/backup/manager.go: the backups with their retention. Making the archive (VACUUM INTO, the
-- tar and its size), removing a file and the clock are calls of the environment.
pub mod Retention
pub mod Restore
pub mod Restored
use project_talos.Prelude.{
  ℕ, String, ◌<>◌, Bool, Option, none, some, List, [], ◌∷◌, length, drop, leb, ◌==◌, nat_eq,
  if◌then◌else◌,
}
use project_talos.Domain.{Backup, Error, wrap, Result, ok, err}
use project_talos.Action.{Action, pure, ◌>>=◌, ◌>>◌}

pub record BackupEnvironment (W : Type 0) : Type 0 where
  -- BackupStore
  pub create_backup : Backup → Action W (Result Backup)
  pub get_backup : ℕ → Action W (Result Backup)
  pub list_backups : Action W (Result (List Backup))
  pub delete_backup : ℕ → Action W (Option Error)
  -- `os.Remove` in the backup directory, where a file that is not there is no error
  pub remove_file : String → Action W (Option Error)
  -- writes the archive of the name, and gives its size
  pub write_archive : String → Action W (Result ℕ)
  -- the time as `20060102-150405`
  pub timestamp : Action W String

-- `NewManager`: a count of 0, or below, stands for 10.
unfoldable pub retain_or_default : ℕ → ℕ
retain_or_default retain = if retain == 0 then 10 else retain

module _ {W : Type 0} (env : BackupEnvironment W) (retain : ℕ) where
  open env use {
    create_backup, get_backup, list_backups, delete_backup, remove_file, write_archive, timestamp,
  }

  -- The loop: errors are logged, and the loop goes on.
  unfoldable pub delete_oldest : List Backup → Action W (Unit {0})
  delete_oldest [] = pure tt
  delete_oldest (b ∷ rest) = do remove_file b.filename; delete_backup b.id; delete_oldest rest

  unfoldable pub enforce_listed : Result (List Backup) → Action W (Option Error)
  unfolding delete_oldest
  enforce_listed (err e) = pure (some (wrap "list backups" e))
  enforce_listed (ok backups) =
      if leb (length backups) retain
      then pure none
      else delete_oldest (drop retain backups) >> pure none

  -- `enforceRetentionPolicy`
  unfoldable pub enforce_retention_policy : Action W (Option Error)
  unfolding enforce_listed
  enforce_retention_policy = do r ← list_backups; enforce_listed r

  unfoldable pub recorded : Result Backup → Action W (Result Backup)
  unfolding enforce_retention_policy
  recorded (err e) = pure (err (wrap "record backup" e))
  recorded (ok b) = enforce_retention_policy >> pure (ok b)

  unfoldable pub archived : String → Result ℕ → Action W (Result Backup)
  unfolding recorded
  archived filename (err e) = pure (err e)
  archived filename (ok size) = do
    r ← create_backup (record {
      id = 0;
      filename = filename;
      size_bytes = size;
      type = "full";
      status = "completed";
      created_at = 0;
    })
    recorded r

  -- `CreateFullBackup`
  unfoldable pub create_full_backup : Action W (Result Backup)
  unfolding archived
  create_full_backup = do
    ts ← timestamp
    r ← write_archive ("talos-backup-" <> ts <> ".tar.gz")
    archived ("talos-backup-" <> ts <> ".tar.gz") r

  unfoldable pub wrapped : String → Option Error → Option Error
  wrapped context none = none
  wrapped context (some e) = some (wrap context e)

  unfoldable pub delete_record : ℕ → Option Error → Action W (Option Error)
  unfolding wrapped
  delete_record id (some e) = pure (some (wrap "delete backup file" e))
  delete_record id none = do r ← delete_backup id; pure (wrapped "delete backup record" r)

  unfoldable pub delete_found : ℕ → Result Backup → Action W (Option Error)
  unfolding delete_record
  delete_found id (err e) = pure (some (wrap "get backup" e))
  delete_found id (ok b) = do r ← remove_file b.filename; delete_record id r

  -- `DeleteBackup`
  unfoldable pub delete_stored_backup : ℕ → Action W (Option Error)
  unfolding delete_found
  delete_stored_backup id = do r ← get_backup id; delete_found id r
