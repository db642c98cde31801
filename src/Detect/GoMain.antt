-- ===== src/Detect/GoMain.antt =====
-- internal/builder/detect/go.go: the name of the module, and the folder of its main package.
use project_talos.Prelude.{
  ℕ, zero, suc, String, ◌<>◌, Bool, true, false, not, ◌||◌, ◌&&◌, Option, none, some, List, [], ◌∷◌,
  ◌++◌, ltb, ◌==◌, string_eq, if◌then◌else◌, split, trim_space, has_prefix, trim_prefix, has_suffix,
  begins_with, count_char, last_of, sort_strings, any, where_rows, is_empty,
}
use project_talos.Domain.{Result, ok}
use project_talos.Detect.Plan.{
  BuildPlan, FileTree, Entries, file, folder, end, entry, Project, file_exists, read_file,
}
use project_talos.Detect.Scanning.{scan_lines}

abbrev file_lines : Option String → List String
file_lines none = []
file_lines (some text) = scan_lines text

module_in : List String → String
unfolding trim_space
module_in [] = ""
module_in (text ∷ lines) =
    let line = trim_space text in
    let rest = module_in lines in
    if has_prefix line "module " then trim_space (trim_prefix line "module") else rest

pub parse_module_name : Project → String
unfolding module_in scan_lines
parse_module_name p = module_in (file_lines (read_file "go.mod" p))

pub module_name : String → String
module_name path = if path == "" then "" else last_of (split b'/' path)

-- The scanner's loop with the lines that it may still read
main_within : ℕ → List String → Bool
unfolding trim_space
main_within zero lines = false
main_within (suc left) [] = false
main_within (suc left) (text ∷ lines) =
    let line = trim_space text in
    let rest = main_within left lines in
    if line == "package main"
    then true
    else if not (line == "")
        && not (has_prefix line "//")
        && not (has_prefix line "/*")
        && not (has_prefix line "*")
        && has_prefix line "package "
    then false
    else rest

unfoldable pub has_package_main : Option String → Bool
unfolding main_within scan_lines
has_package_main text = main_within 50 (file_lines text)

-- The path of an entry of a folder
abbrev pub child : String → String → String
child dir name = if dir == "." then name else dir <> "/" <> name

abbrev pub contains_dir : String → List String → Bool
contains_dir dir dirs = any (λ d. d == dir) dirs

-- `if !seen[dir] { seen[dir] = true; dirs = append(dirs, dir) }`
abbrev pub add_dir : String → List String → List String
add_dir dir dirs = if contains_dir dir dirs then dirs else dirs ++ dir ∷ []

unfoldable pub too_deep : String → Bool
too_deep path = ltb 3 (count_char b'/' path)

-- `vendor` and the hidden folders
unfoldable pub skipped : String → Bool
skipped name = name == "vendor" || begins_with b'.' name

unfoldable pub is_main_file : String → Option String → Bool
unfolding has_package_main
is_main_file name text =
    has_suffix name ".go" && not (has_suffix name "_test.go") && has_package_main text

-- `filepath.Walk` with the function that it calls: an entry of `dir`, and the entries of `dir`
unfoldable mutual
  pub walk : String → String → FileTree → List String → List String
  walk dir name (file text) dirs =
      if not (too_deep (child dir name)) && is_main_file name text then add_dir dir dirs else dirs
  walk dir name (folder es) dirs =
      let inside = walk_entries (child dir name) es dirs in
      if too_deep (child dir name) || skipped name then dirs else inside

  pub walk_entries : String → Entries → List String → List String
  walk_entries dir end dirs = dirs
  walk_entries dir (entry name tree es) dirs = walk_entries dir es (walk dir name tree dirs)

unfoldable pub find_main_packages : Project → List String
unfolding walk skipped too_deep is_main_file
find_main_packages p = if skipped p.root_name then [] else walk_entries "." p.entries []

-- `filepath.Base` of a path inside the project
abbrev pub base : String → String
base path = last_of (split b'/' path)

abbrev pub first_or : String → List String → String
first_or default [] = default
first_or default (d ∷ ds) = d

-- The folder below `cmd` with the module's name, else the first one
unfoldable pub choose_cmd : String → List String → String
choose_cmd last_seg cmd_dirs =
    first_or (first_or "" cmd_dirs)
      (where_rows (λ d. not (last_seg == "") && base d == last_seg) cmd_dirs)

unfoldable pub main_target : String → List String → String
unfolding choose_cmd
main_target last_seg dirs =
    let cmd_dirs = sort_strings (where_rows (λ d. has_prefix d "cmd") dirs) in
    if is_empty dirs
    then "./..."
    else if not (is_empty cmd_dirs)
    then "./" <> choose_cmd last_seg cmd_dirs
    else if contains_dir "." dirs
    then "."
    else "./" <> first_or "" dirs

unfoldable pub detect_go_main_target : Project → String
unfolding parse_module_name module_name find_main_packages main_target
detect_go_main_target p = main_target (module_name (parse_module_name p)) (find_main_packages p)

unfoldable pub go_detect : Project → Bool
go_detect p = file_exists "go.mod" p

unfoldable pub go_plan : Project → Result BuildPlan
unfolding parse_module_name module_name detect_go_main_target
go_plan p =
    let name = module_name (parse_module_name p) in
    ok (record {
      provider = "go";
      runtime = "golang:1.25-alpine";
      install = [];
      build = [];
      start_command = "";
      port = 8080;
      output_dir = "";
      binary_name = if name == "" then "server" else name;
      static_dir = "";
      build_target = detect_go_main_target p;
    })
