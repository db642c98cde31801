-- ===== src/Backups/Restored.antt =====
-- What a restoration leaves in the files.
use project_talos.Prelude.{
  String, Option, none, some, List, [], ◌∷◌, ◌≡◌, ◌==◌, string_eq, if◌then◌else◌,
}
use project_talos.Domain.{Error}
use project_talos.Action.{Action}
use project_talos.Backups.Restore.{
  TarEntry, item, broken, RestoreEnvironment, db_path, dest_path, is_service_entry,
}

-- The files as the code relies on them: a created file has its contents, and making a folder changes
-- no file.
pub record Files {W : Type 0} (env : RestoreEnvironment W) (text_at : String → W → Option String)
    : Type 0 where
  pub created_has :
      (path text q : String) (w : W)
      → (env.create_file path text w).0 ≡ none
      → text_at q (env.create_file path text w).1 ≡ (if path == q then some text else text_at q w)
  pub mkdir_keeps : (path q : String) (w : W) → text_at q (env.mkdir_all path w).1 ≡ text_at q w

-- The contents of the file `q` by the entries of an archive: those of the last entry that is for it,
-- or what it had before
abbrev pub by_entries : String → String → List TarEntry → Option String → Option String
by_entries data_dir q [] before = before
by_entries data_dir q (broken e ∷ entries) before = before
by_entries data_dir q (item name is_dir text ∷ entries) before = by_entries data_dir q entries (
    if name == "talos.db"
    then (if db_path data_dir == q then some text else before)
    else if is_service_entry name
    then (if is_dir then before else if dest_path data_dir name == q then some text else before)
    else before)

-- Where an action has no error, it changes by `f` what the file `q` has.
record Does {W : Type 0} (text_at : String → W → Option String) (q : String)
    (m : Action W (Option Error)) (f : Option String → Option String) : Type 0 where
  at : (w : W) → (m w).0 ≡ none → text_at q (m w).1 ≡ f (text_at q w)

module _ {W : Type 0} (env : RestoreEnvironment W) (data_dir backup_dir : String)
    (text_at : String → W → Option String) (files : Files env text_at) (q : String) where
  abbrev Changes : Action W (Option Error) → (Option String → Option String) → Type 0
  Changes m f = Does text_at q m f
