-- ===== src/Prelude/FilePaths.antt =====
-- Go's `path/filepath` on Unix: `Clean`, `Join` and `Dir`.
use Prim.Native.String.{String, ◌++◌}
use mathlib.Core.Path.{◌≡◌, refl}
use mathlib.Core.Bool.{Bool, true, false, ◌||◌}
use mathlib.Core.Option.{Option, none, some}
use mathlib.Core.List.{List, [], ◌∷◌, reverse, ◌++◌ as ◌++ᴸ◌}
use project_talos.Prelude.Tests.{◌==◌, string_eq, if◌then◌else◌}
use project_talos.Prelude.Text.{join}
use project_talos.Prelude.Lines.{split, begins_with}

-- `..` takes the last part away; at the root there is none, and a relative path keeps it.
back : Bool → List String → List String
back true [] = []
back false [] = ".." ∷ []
back rooted (part ∷ parts) = if part == ".." then ".." ∷ part ∷ parts else parts

-- The parts that are kept, the last one first
resolve : Bool → List String → List String → List String
resolve rooted kept [] = kept
resolve rooted kept (part ∷ parts) =
    resolve rooted
      (if part == "" || part == "."
        then kept
        else if part == ".."
        then back rooted kept
        else part ∷ kept)
      parts

relative : List String → String
relative [] = "."
relative (part ∷ parts) = join "/" (part ∷ parts)

unfoldable pub clean : String → String
unfolding resolve back relative
clean path =
    let rooted = begins_with b'/' path in
    let parts = reverse (resolve rooted [] (split b'/' path)) in
    if rooted then "/" ++ join "/" parts else relative parts

-- The parts without the last one
all_but_last : List String → List String
all_but_last [] = []
all_but_last (_ ∷ []) = []
all_but_last (part ∷ next ∷ parts) = part ∷ all_but_last (next ∷ parts)

-- `filepath.Dir`: what stands up to the last slash, cleaned
unfoldable pub dir : String → String
unfolding clean all_but_last
dir path = clean (join "/" (all_but_last (split b'/' path) ++ᴸ ("" ∷ [])))

not_empty : List String → List String
not_empty [] = []
not_empty (part ∷ parts) = let rest = not_empty parts in if part == "" then rest else part ∷ rest

join_cleaned : List String → String
unfolding clean
join_cleaned [] = ""
join_cleaned (part ∷ parts) = clean (join "/" (part ∷ parts))

-- `filepath.Join`
unfoldable pub join_path : List String → String
unfolding not_empty join_cleaned
join_path elems = join_cleaned (not_empty elems)

parts_of : String → List String
unfolding clean resolve back
parts_of path = reverse (resolve (begins_with b'/' path) [] (split b'/' path))

-- What is left of both lists behind the parts that they share
without_common : List String → List String → List String × List String
without_common [] targ = ([], targ)
without_common (b ∷ base) [] = (b ∷ base, [])
without_common (b ∷ base) (t ∷ targ) =
    let rest = without_common base targ in if b == t then rest else (b ∷ base, t ∷ targ)

up : List String → List String
up [] = []
up (_ ∷ parts) = ".." ∷ up parts

climbs : List String → Bool
climbs [] = false
climbs (part ∷ parts) = let rest = climbs parts in if part == ".." then true else rest

same_bool : Bool → Bool → Bool
same_bool true b = b
same_bool false true = false
same_bool false false = true

-- `filepath.Rel`, none where it returns an error
unfoldable pub rel : String → String → Option String
unfolding parts_of without_common up climbs relative same_bool
rel base targ =
    let (b, t) = without_common (parts_of base) (parts_of targ) in
    if same_bool (begins_with b'/' base) (begins_with b'/' targ)
    then (if climbs b then none else some (relative (up b ++ᴸ t)))
    else none

-- `filepath.Abs` in a working directory
unfoldable pub abs : String → String → String
unfolding clean join_path
abs working_dir path =
    if begins_with b'/' path then clean path else join_path (working_dir ∷ path ∷ [])

dir_test : dir "/opt/talos/.env" ≡ "/opt/talos"
unfolding dir
dir_test = refl

dir_relative : dir ".env" ≡ "."
unfolding dir
dir_relative = refl

join_escapes : join_path ("/tmp/restore" ∷ "../../etc/passwd" ∷ []) ≡ "/etc/passwd"
unfolding join_path
join_escapes = refl

rel_test : rel "/data" "/data/services/db" ≡ some "services/db"
unfolding rel
rel_test = refl

rel_up : rel "a/b" "a/c" ≡ some "../c"
unfolding rel
rel_up = refl
