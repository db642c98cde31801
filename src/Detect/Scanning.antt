-- ===== src/Detect/Scanning.antt =====
-- What the providers read from texts: `bufio.Scanner`, and the regular expressions of node.go and
-- java.go. Each expression matches at a place in at most one way, so it is a function from the text
-- at that place to its group.
use Prim.Native.String.{len}
use Prim.Native.Char.{Char, code}
use project_talos.Prelude.{
  ℕ, ◌+◌, ◌-◌, ◌*◌, ◌^◌, String, Bool, ◌||◌, ◌&&◌, Option, none, some, List, [], ◌∷◌, ◌≡◌, refl,
  split, leb, ltb, ◌==◌, nat_eq, string_eq, if◌then◌else◌,
}

-- The line ends of a text: no line follows the last one.
abbrev without_last_empty : List String → List String
without_last_empty [] = []
without_last_empty (line ∷ []) = if line == "" then [] else line ∷ []
without_last_empty (line ∷ next ∷ lines) = line ∷ without_last_empty (next ∷ lines)

abbrev without_return : String → String
without_return String.[] = ""
without_return (String.◌∷◌ c String.[]) = if code c == 13 then "" else String.◌∷◌ c ""
without_return (String.◌∷◌ c (String.◌∷◌ d s)) = String.◌∷◌ c (without_return (String.◌∷◌ d s))

-- The scanner stops at a line that does not fit its buffer of 64 KiB.
abbrev scanned : List String → List String
scanned [] = []
scanned (line ∷ lines) =
    let rest = scanned lines in if ltb (len line) 65536 then without_return line ∷ rest else []

-- The lines for which `Scan` is true
unfoldable pub scan_lines : String → List String
scan_lines text = scanned (without_last_empty (split b'\n' text))

-- `FindStringSubmatch`: the group at the leftmost place that matches
unfoldable pub leftmost : (String → Option String) → String → Option String
leftmost matches String.[] = matches ""
leftmost matches (String.◌∷◌ c s) =
    let rest = leftmost matches s in
    elim (matches (String.◌∷◌ c s)) [ some group ↦ some group | none ↦ rest ]

abbrev is_digit : Char → Bool
is_digit c = leb 48 (code c) && leb (code c) 57

-- `\s`
abbrev is_blank : Char → Bool
is_blank c = let n = code c in n == 32 || n == 9 || n == 10 || n == 12 || n == 13

-- The digits that a text begins with, and what follows them
abbrev with_digit : Char → String × String → String × String
with_digit c (ds, rest) = (String.◌∷◌ c ds, rest)

unfoldable pub span_digits : String → String × String
span_digits String.[] = ("", "")
span_digits (String.◌∷◌ c s) =
    let more = with_digit c (span_digits s) in if is_digit c then more else ("", String.◌∷◌ c s)

-- `\s*`
unfoldable pub skip_blanks : String → String
skip_blanks String.[] = ""
skip_blanks (String.◌∷◌ c s) =
    let rest = skip_blanks s in if is_blank c then rest else String.◌∷◌ c s

-- `\s+`
unfoldable pub skip_blanks1 : String → Option String
unfolding skip_blanks
skip_blanks1 String.[] = none
skip_blanks1 (String.◌∷◌ c s) = if is_blank c then some (skip_blanks s) else none

-- `(\d+)`: at least one digit
abbrev some_digits : String × String → Option (String × String)
some_digits (ds, rest) = if ds == "" then none else some (ds, rest)

unfoldable pub digits1 : String → Option (String × String)
unfolding span_digits
digits1 s = some_digits (span_digits s)

abbrev pub group_of : Option (String × String) → Option String
group_of none = none
group_of (some (ds, _)) = some ds

-- A fallible step, and the other alternative of an expression
infixl 5 ◌>>=◌
abbrev pub ◌>>=◌ {ℓ κ} : {A : Type ℓ} {B : Type κ} → Option A → (A → Option B) → Option B
none >>= f = none
some a >>= f = f a

abbrev pub or_else {ℓ} : {A : Type ℓ} → Option A → Option A → Option A
or_else none b = b
or_else (some a) b = some a

abbrev value_from : ℕ → String → ℕ
value_from acc String.[] = acc
value_from acc (String.◌∷◌ c s) = value_from (acc * 10 + (code c - 48)) s

-- `strconv.Atoi` of digits, its error dropped: what does not fit an `int64` is the largest one.
unfoldable pub atoi : String → ℕ
atoi s = let n = value_from 0 s in if ltb n (2 ^ 63) then n else 2 ^ 63 - 1

scan_lines_test : scan_lines "a\n\nb\n" ≡ "a" ∷ "" ∷ "b" ∷ []
unfolding scan_lines
scan_lines_test = refl

atoi_test : atoi "8888" ≡ 8888
unfolding atoi
atoi_test = refl
