-- ===== src/Settings/EnvFile.antt =====
-- The env file: the loops of `readEnvValues` and `updateEnvFile` of internal/settings/service.go,
-- over the lines of the file.
use project_talos.Prelude.{
  String, ◌<>◌, ◌≡◌, refl, Bool, not, Option, none, some, List, [], ◌∷◌, ◌++◌, map, where_rows, any,
  split, cut, begins_with, ends_with, sort_strings, trim_space, join, ◌==◌, string_eq,
  if◌then◌else◌,
}

-- A Go map with the keys of an env file, as its entries; each key stands there once.
abbrev pub Dict : Type 0
Dict = List (String × String)

unfoldable pub lookup : String → Dict → Option String
lookup key [] = none
lookup key ((k, v) ∷ m) = let rest = lookup key m in if k == key then some v else rest

-- `delete(m, key)`
unfoldable pub remove_key : String → Dict → Dict
remove_key key [] = []
remove_key key ((k, v) ∷ m) =
    let rest = remove_key key m in if k == key then rest else (k, v) ∷ rest

-- `m[key] = value`
unfoldable pub put : String → String → Dict → Dict
unfolding remove_key
put key value m = (key, value) ∷ remove_key key m

unfoldable pub put_cut : Option (String × String) → Dict → Dict
unfolding put
put_cut none values = values
put_cut (some (key, value)) values = put key value values

-- One round of the loop of `readEnvValues`
unfoldable pub read_line : String → Dict → Dict
unfolding put_cut
read_line line values =
    let text = trim_space line in
    if text == ""
    then values
    else if begins_with b'#' text
    then values
    else put_cut (cut b'=' text) values

unfoldable pub read_lines : List String → Dict → Dict
unfolding read_line
read_lines [] values = values
read_lines (line ∷ lines) values = read_lines lines (read_line line values)

unfoldable pub parse_env : String → Dict
unfolding read_lines
parse_env text = read_lines (split b'\n' text) []

-- A line for a value, none for an empty one
unfoldable pub assignment : String → String → List String
assignment key value = if value == "" then [] else (key <> "=" <> value) ∷ []

unfoldable pub replace_value : String → String → Option String → Dict → List String × Dict
unfolding assignment remove_key
replace_value line key none remaining = (line ∷ [], remaining)
replace_value line key (some value) remaining = (assignment key value, remove_key key remaining)

unfoldable pub replace_cut : String → Option (String × String) → Dict → List String × Dict
unfolding replace_value lookup
replace_cut line none remaining = (line ∷ [], remaining)
replace_cut line (some (key, _)) remaining = replace_value line key (lookup key remaining) remaining

-- One round of the first loop of `updateEnvFile`: the lines for a line of the file, and the updates
-- that are left
unfoldable pub replace_line : String → Dict → List String × Dict
unfolding replace_cut
replace_line line remaining = replace_cut line (cut b'=' line) remaining

unfoldable pub replace_lines : List String → Dict → List String × Dict
unfolding replace_line
replace_lines [] remaining = ([], remaining)
replace_lines (line ∷ lines) remaining =
    let (out, left) = replace_line line remaining in
    let (outs, left') = replace_lines lines left in (out ++ outs, left')

abbrev pub preferred_order : List String
preferred_order =
    "TALOS_DOMAIN" ∷ "TALOS_ACME_EMAIL" ∷ "TALOS_PROXY_MODE" ∷ "TALOS_EDGE_NETWORK"
    ∷ "TALOS_EDGE_CERT_RESOLVER" ∷ []

abbrev pub assign_found : String → Option String → List String
assign_found key none = []
assign_found key (some value) = assignment key value

-- The lines for the keys that have a value
unfoldable pub assignments : List String → Dict → List String
unfolding assignment lookup
assignments [] remaining = []
assignments (key ∷ keys) remaining =
    assign_found key (lookup key remaining) ++ assignments keys remaining

abbrev pub keys_of : Dict → List String
keys_of = map (λ entry. entry.0)

abbrev pub is_among : List String → String → Bool
is_among keys key = any (λ k. k == key) keys

-- The last two loops of `updateEnvFile`: the preferred keys, then the others in order
unfoldable pub appended_lines : Dict → List String
unfolding assignments
appended_lines remaining =
    assignments preferred_order remaining
    ++ assignments
        (sort_strings (where_rows (λ key. not (is_among preferred_order key)) (keys_of remaining)))
        remaining

unfoldable pub updated_lines : Dict → List String → List String
unfolding replace_lines appended_lines
updated_lines updates lines =
    let (out, left) = replace_lines lines updates in out ++ appended_lines left

unfoldable pub with_newline : String → String
with_newline output =
    if output == "" then output else if ends_with b'\n' output then output else output <> "\n"

-- The new text of the file
unfoldable pub update_env : Dict → List String → String
unfolding updated_lines with_newline
update_env updates lines = with_newline (join "\n" (updated_lines updates lines))

update_test :
    update_env
      (("TALOS_DOMAIN", "new.dev") ∷ ("TALOS_EDGE_NETWORK", "edge") ∷ [])
      ("# talos" ∷ "TALOS_DOMAIN=old.dev" ∷ "PORT=3000" ∷ "" ∷ [])
    ≡ "# talos\nTALOS_DOMAIN=new.dev\nPORT=3000\n\nTALOS_EDGE_NETWORK=edge\n"
unfolding update_env trim_space
update_test = refl
