-- ===== src/Examples/Backups.antt =====
-- A database with three backups, of which one is to stay.
use project_talos.Prelude.{
  ℕ, ◌*◌, ◌≡◌, ◌≤◌, String, false, true, Option, refl, none, some, List, [], ◌∷◌, All, ◌==◌,
  string_eq, if◌then◌else◌,
}
use project_talos.Backups.Restore.{TarEntry, item, RestoreEnvironment}
use project_talos.Domain.{Backup, ok}
use project_talos.Store.{Database}
use project_talos.Store.Backups.{create_backup, get_backup, list_backups, delete_backup}
use project_talos.Backups.{BackupEnvironment, enforce_retention_policy}
use project_talos.Backups.Retention.{OnTable, without, retention_removes_oldest}
use project_talos.Examples.Values.{sqlite, database}
use project_talos.Examples.Laws.{sqlite-SortLaws}

abbrev backup : ℕ → Backup
backup n = record {
  id = n;
  filename = "talos-backup.tar.gz";
  size_bytes = 1;
  type = "full";
  status = "completed";
  created_at = 10 * n;
}

abbrev full : Database
full = record database { backups = backup 1 ∷ backup 2 ∷ backup 3 ∷ []; last_backup_id = 3 }

abbrev backups_env : BackupEnvironment Database
backups_env = record {
  create_backup = create_backup sqlite;
  get_backup = get_backup sqlite;
  list_backups = list_backups sqlite;
  delete_backup = delete_backup sqlite;
  remove_file = λ name db. (none, db);
  write_archive = λ name db. (ok 1, db);
  timestamp = λ db. ("20260101-000000", db);
}

backups_env-OnTable : OnTable backups_env sqlite (λ db. db)
unfolding list_backups
backups_env-OnTable = record {
  lists = λ db. refl;
  lists_same = λ db. refl;
  deletes = λ id db. refl;
  removes_same = λ name db. refl;
}

retention_removes_oldest_example :
    ((enforce_retention_policy backups_env 1 full).0 ≡ none)
    × ((enforce_retention_policy backups_env 1 full).1.backups
        ≡ without (backup 2 ∷ backup 1 ∷ []) (backup 1 ∷ backup 2 ∷ backup 3 ∷ []))
    × All
        (λ old. All (λ kept. old.created_at ≤ kept.created_at) (backup 3 ∷ []))
        (backup 2 ∷ backup 1 ∷ [])
    × (1 ≤ 1)
retention_removes_oldest_example =
    retention_removes_oldest backups_env 1 sqlite (λ db. db) backups_env-OnTable sqlite-SortLaws
      full

-- The files of a restoration, by their paths
abbrev RestoredDisk : Type 0
RestoredDisk = String → Option String

abbrev content_at : String → RestoredDisk → Option String
content_at path disk = disk path

abbrev restoring : RestoreEnvironment RestoredDisk
restoring = record {
  get_backup = λ id disk. (ok (backup id), disk);
  open_file = λ path disk. (none, disk);
  open_gzip = λ path disk. (ok [], disk);
  mkdir_all = λ path disk. (none, disk);
  create_file = λ path text disk. (none, λ q. if path == q then some text else disk q);
}

abbrev archive : List TarEntry
archive =
    item "talos.db" false "rows"
    ∷ item "services/pg" true ""
    ∷ item "services/pg/base" false "pages"
    ∷ item "README" false "text"
    ∷ []
