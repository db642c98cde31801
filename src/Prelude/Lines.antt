-- ===== src/Prelude/Lines.antt =====
-- Go's `strings` and `sort` on texts that are taken apart: `Split` at line ends and slashes, `Cut`
-- at an equals sign, `HasPrefix`, `HasSuffix`, `Contains` of one character, and `sort.Strings`.
use Prim.Native.Nat.{ℕ, suc, Ordering}
use Prim.Native.Char.{Char, code}
use Prim.Native.String.{String, compare}
use mathlib.Core.Bool.{Bool, true, false}
use mathlib.Core.Option.{Option, none, some}
use mathlib.Core.List.{List, [], ◌∷◌}
use project_talos.Prelude.Tests.{◌==◌, nat_eq, string_eq, if◌then◌else◌}

-- A character before the first part
abbrev pub push_first : Char → List String → List String
push_first c [] = String.◌∷◌ c "" ∷ []
push_first c (part ∷ parts) = String.◌∷◌ c part ∷ parts

-- `strings.Split(s, sep)` for a separator of one character
abbrev pub split : ℕ → String → List String
split sep String.[] = "" ∷ []
split sep (String.◌∷◌ c s) =
    let rest = split sep s in if code c == sep then "" ∷ rest else push_first c rest

abbrev pub before : Char → Option (String × String) → Option (String × String)
before c none = none
before c (some (head, tail)) = some (String.◌∷◌ c head, tail)

-- `strings.Cut(s, sep)`
abbrev pub cut : ℕ → String → Option (String × String)
cut sep String.[] = none
cut sep (String.◌∷◌ c s) =
    let rest = cut sep s in if code c == sep then some ("", s) else before c rest

-- `strings.Contains(s, sep)`
abbrev pub has_char : ℕ → String → Bool
has_char sep String.[] = false
has_char sep (String.◌∷◌ c s) = let rest = has_char sep s in if code c == sep then true else rest

-- `strings.HasPrefix(s, "c")`
abbrev pub begins_with : ℕ → String → Bool
begins_with first String.[] = false
begins_with first (String.◌∷◌ c _) = code c == first

-- `strings.HasSuffix(s, "c")`
abbrev pub ends_with : ℕ → String → Bool
ends_with last String.[] = false
ends_with last (String.◌∷◌ c String.[]) = code c == last
ends_with last (String.◌∷◌ _ (String.◌∷◌ d s)) = ends_with last (String.◌∷◌ d s)

-- `strings.HasPrefix(s, prefix)`
abbrev pub has_prefix : String → String → Bool
has_prefix s String.[] = true
has_prefix String.[] (String.◌∷◌ _ _) = false
has_prefix (String.◌∷◌ d s) (String.◌∷◌ c prefix) =
    let rest = has_prefix s prefix in if code d == code c then rest else false

-- What follows a prefix, none where the text does not begin with it: `strings.CutPrefix`
abbrev pub cut_prefix : String → String → Option String
cut_prefix s String.[] = some s
cut_prefix String.[] (String.◌∷◌ _ _) = none
cut_prefix (String.◌∷◌ d s) (String.◌∷◌ c prefix) =
    let rest = cut_prefix s prefix in if code d == code c then rest else none

-- `strings.TrimPrefix`
abbrev pub trim_prefix : String → String → String
trim_prefix s prefix = elim (cut_prefix s prefix) [ none ↦ s | some rest ↦ rest ]

-- `strings.HasSuffix(s, suffix)`
abbrev pub has_suffix : String → String → Bool
has_suffix String.[] suffix = suffix == ""
has_suffix (String.◌∷◌ c s) suffix =
    let rest = has_suffix s suffix in if String.◌∷◌ c s == suffix then true else rest

-- `strings.Count(s, sep)`
abbrev pub count_char : ℕ → String → ℕ
count_char sep String.[] = 0
count_char sep (String.◌∷◌ c s) =
    let rest = count_char sep s in if code c == sep then suc rest else rest

-- The last part of a split text: `parts[len(parts)-1]`
abbrev pub last_of : List String → String
last_of [] = ""
last_of (part ∷ []) = part
last_of (_ ∷ next ∷ parts) = last_of (next ∷ parts)

abbrev pub text_leb : String → String → Bool
text_leb s t = elim (compare s t) [ Ordering.gt ↦ false | _ ↦ true ]

abbrev pub insert_text : String → List String → List String
insert_text s [] = s ∷ []
insert_text s (t ∷ ts) =
    let rest = insert_text s ts in if text_leb s t then s ∷ t ∷ ts else t ∷ rest

-- `sort.Strings`
abbrev pub sort_strings : List String → List String
sort_strings [] = []
sort_strings (s ∷ ss) = insert_text s (sort_strings ss)
