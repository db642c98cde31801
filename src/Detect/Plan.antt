-- ===== src/Detect/Plan.antt =====
-- internal/builder/detect/provider.go, and the project that the providers look at: a tree of files.
-- A folder's entries stand in the order of their names, in which `filepath.Walk` visits them; there
-- are no symbolic links. A path is what `filepath.Rel(root, …)` gives of it, so `.` is the root.
use project_talos.Prelude.{
  ℕ, String, Bool, true, false, Option, none, some, List, ◌==◌, string_eq, if◌then◌else◌,
}

pub record BuildPlan : Type 0 where
  pub provider : String
  pub runtime : String
  pub install : List String
  pub build : List String
  pub start_command : String
  pub port : ℕ
  pub output_dir : String
  pub binary_name : String
  pub static_dir : String
  pub build_target : String

-- A file has no text where it cannot be read.
mutual
  pub data FileTree : Type 0 where
    file : Option String → FileTree
    folder : Entries → FileTree

  pub data Entries : Type 0 where
    end : Entries
    entry : String → FileTree → Entries → Entries

-- The folder that is built: its own name, and what it holds
pub record Project : Type 0 where
  pub root_name : String
  pub entries : Entries

abbrev pub entry_at : String → Entries → Option FileTree
entry_at name end = none
entry_at name (entry other tree es) =
    let rest = entry_at name es in if other == name then some tree else rest

-- `os.Stat(root + "/" + name)` without an error
abbrev pub present : Option FileTree → Bool
present none = false
present (some _) = true

abbrev pub file_exists : String → Project → Bool
file_exists name p = present (entry_at name p.entries)

-- `os.ReadFile`: a folder cannot be read.
abbrev pub text_of : Option FileTree → Option String
text_of (some (file text)) = text
text_of _ = none

abbrev pub read_file : String → Project → Option String
read_file name p = text_of (entry_at name p.entries)
