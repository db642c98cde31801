-- ===== src/Backups/Restore.antt =====
-- internal/backup/manager.go: `Restore`. The archive is what `tar.Reader` gives of the file: its
-- entries in order, up to the end or an error.
use Prim.Native.String.{len}
use project_talos.Prelude.{
  ℕ, String, ◌<>◌, Bool, true, false, ◌&&◌, Option, none, some, List, [], ◌∷◌, ltb, ◌==◌, string_eq,
  if◌then◌else◌, has_prefix, join_path, dir,
}
use project_talos.Domain.{Backup, Error, wrap, Result, ok, err}
use project_talos.Action.{Action, pure, ◌>>=◌}

pub data TarEntry : Type 0 where
  -- the name, whether the type is `TypeDir`, and the contents
  item : String → Bool → String → TarEntry
  broken : Error → TarEntry

pub record RestoreEnvironment (W : Type 0) : Type 0 where
  pub get_backup : ℕ → Action W (Result Backup)
  -- `os.Open` and `gzip.NewReader`
  pub open_file : String → Action W (Option Error)
  pub open_gzip : String → Action W (Result (List TarEntry))
  pub mkdir_all : String → Action W (Option Error)
  -- `os.Create` and the copy of the contents
  pub create_file : String → String → Action W (Option Error)

unfoldable pub db_path : String → String
unfolding join_path
db_path data_dir = join_path (data_dir ∷ "talos.db" ∷ [])

unfoldable pub dest_path : String → String → String
unfolding join_path
dest_path data_dir name = join_path (data_dir ∷ name ∷ [])

unfoldable pub is_service_entry : String → Bool
is_service_entry name = ltb (len "services/") (len name) && has_prefix name "services/"

-- An error ends the restoration, under a text; else it goes on.
unfoldable pub or_go_on :
    {W : Type 0} → String → Action W (Option Error) → Option Error → Action W (Option Error)
or_go_on context next (some e) = pure (some (wrap context e))
or_go_on context next none = next

module _ {W : Type 0} (env : RestoreEnvironment W) (data_dir backup_dir : String) where
  open env use {get_backup, open_file, open_gzip, mkdir_all, create_file}

  unfoldable pub extracted : String → String → Option Error → Action W (Option Error)
  extracted path text (some e) = pure (some e)
  extracted path text none = create_file path text

  unfoldable pub extract_file : String → String → Action W (Option Error)
  unfolding extracted dir
  extract_file path text = do e ← mkdir_all (dir path); extracted path text e

  unfoldable pub restore_service :
      String → Bool → String → Action W (Option Error) → Action W (Option Error)
  unfolding or_go_on extract_file dest_path
  restore_service name true text next = do
    e ← mkdir_all (dest_path data_dir name)
    or_go_on ("create dir " <> dest_path data_dir name) next e
  restore_service name false text next = do
    e ← extract_file (dest_path data_dir name) text
    or_go_on ("restore " <> name) next e

  unfoldable pub restore_entries : List TarEntry → Action W (Option Error)
  unfolding or_go_on extract_file restore_service is_service_entry db_path
  restore_entries [] = pure none
  restore_entries (broken e ∷ entries) = pure (some (wrap "read tar" e))
  restore_entries (item name is_dir text ∷ entries) =
      let rest = restore_entries entries in
      if name == "talos.db"
      then (do e ← extract_file (db_path data_dir) text; or_go_on "restore database" rest e)
      else if is_service_entry name
      then restore_service name is_dir text rest
      else rest

  restore_opened : Result (List TarEntry) → Action W (Option Error)
  unfolding restore_entries
  restore_opened (err e) = pure (some (wrap "open gzip" e))
  restore_opened (ok entries) = restore_entries entries

  restore_found : Result Backup → Action W (Option Error)
  unfolding restore_opened or_go_on join_path
  restore_found (err e) = pure (some (wrap "get backup" e))
  restore_found (ok b) = do
    let path = join_path (backup_dir ∷ b.filename ∷ [])
    e ← open_file path
    or_go_on "open backup file" (do r ← open_gzip path; restore_opened r) e

  unfoldable pub restore : ℕ → Action W (Option Error)
  unfolding restore_found
  restore backup_id = do r ← get_backup backup_id; restore_found r
