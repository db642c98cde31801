-- ===== src/Settings/Reading.antt =====
-- What the loop of `readEnvValues` makes of the lines: the last line that assigns a key counts.
use Prim.Native.Char.{Char, code}
use text.Mathlib.TextLemmas.{cons-append, nil-append}
use project_talos.Prelude.{
  String, ◌<>◌, ◌≡◌, refl, ◌∙◌, sym, ap, Bool, true, false, not, ◌&&◌, Option, none, some, List, [],
  ◌∷◌, ◌++◌, cut, begins_with, has_char, trim_space, trim_right, is_space, cut-append,
  trim_space-append, trim_right-cons, cons-not-empty, append-not-empty, ◌==◌, nat_eq, string_eq,
  eq_iff, if◌then◌else◌, Bool-cases, inl, inr, arith,
}
use project_talos.Settings.EnvFile.{Dict, lookup, remove_key, put, put_cut, read_line, read_lines}

abbrev pub or_else : Option String → Option String → Option String
or_else (some v) _ = some v
or_else none o = o

abbrev value_if : String → Option (String × String) → Option String
value_if key none = none
value_if key (some (k, v)) = if k == key then some v else none

-- The value that a line gives a key, if it gives one
unfoldable pub assigned : String → String → Option String
assigned key line =
    let text = trim_space line in
    if text == ""
    then none
    else if begins_with b'#' text
    then none
    else value_if key (cut b'=' text)

-- The value that the lines give a key: that of the last of them which gives one
unfoldable pub value_of : String → List String → Option String
value_of key [] = none
value_of key (line ∷ lines) = or_else (value_of key lines) (assigned key line)

pub lookup-remove_key :
    (key other : String) (m : Dict)
    → lookup key (remove_key other m) ≡ (if other == key then none else lookup key m)
unfolding lookup remove_key
lookup-remove_key key other [] = ground arith
lookup-remove_key key other ((k, v) ∷ m) =
    ground (arith, eq_iff k other, eq_iff k key, eq_iff other key, lookup-remove_key key other m)

lookup-put_cut :
    (key : String) (entry : Option (String × String)) (m : Dict)
    → lookup key (put_cut entry m) ≡ or_else (value_if key entry) (lookup key m)
unfolding put_cut put lookup
lookup-put_cut key none m = refl
lookup-put_cut key (some (k, v)) m = ground (arith, lookup-remove_key key k m)

lookup-read_line :
    (key line : String) (m : Dict)
    → lookup key (read_line line m) ≡ or_else (assigned key line) (lookup key m)
unfolding read_line assigned
lookup-read_line key line m = elim (Bool-cases (trim_space line == "")) [
  | inl p ↦ rw (p) refl
  | inr p ↦ elim (Bool-cases (begins_with b'#' (trim_space line))) [
    | inl q ↦ rw (p) (rw (q) refl)
    | inr q ↦ rw (p) (rw (q) (lookup-put_cut key (cut b'=' (trim_space line)) m))
  ]
]

pub or_else_assoc : (a b c : Option String) → or_else a (or_else b c) ≡ or_else (or_else a b) c
or_else_assoc none b c = refl
or_else_assoc (some v) b c = refl

pub lookup-read_lines :
    (key : String) (lines : List String) (m : Dict)
    → lookup key (read_lines lines m) ≡ or_else (value_of key lines) (lookup key m)
unfolding read_lines value_of
lookup-read_lines key [] m = refl
lookup-read_lines key (line ∷ lines) m =
    lookup-read_lines key lines (read_line line m)
    ∙ ap (or_else (value_of key lines)) (lookup-read_line key line m)
    ∙ or_else_assoc (value_of key lines) (assigned key line) (lookup key m)

pub value_of-append :
    (key : String) (xs ys : List String)
    → value_of key (xs ++ ys) ≡ or_else (value_of key ys) (value_of key xs)
unfolding value_of
value_of-append key [] ys = ground arith
value_of-append key (x ∷ xs) ys =
    ap (λ o. or_else o (assigned key x)) (value_of-append key xs ys)
    ∙ sym (or_else_assoc (value_of key ys) (value_of key xs) (assigned key x))

-- A key that `readEnvValues` reads back: it begins with neither white space nor `#`, and holds
-- neither `=` nor a line end.
abbrev pub begins_clean : String → Bool
begins_clean String.[] = false
begins_clean (String.◌∷◌ c _) = not (is_space c) && not (code c == b'#')

abbrev pub is_key : String → Bool
is_key key = begins_clean key && not (has_char b'=' key) && not (has_char b'\n' key)

assigned_of_text :
    (other line text key value : String)
    → trim_space line ≡ text
    → (text == "") ≡ false
    → begins_with b'#' text ≡ false
    → cut b'=' text ≡ some (key, value)
    → assigned other line ≡ (if key == other then some value else none)
unfolding assigned
assigned_of_text other line text key value t n b c = rw (t) (rw (n) (rw (b) (rw (c) refl)))

abbrev pub equals_sign : Char
equals_sign = "="

pub equals-append : (s : String) → "=" <> s ≡ String.◌∷◌ equals_sign s
equals-append s = cons-append equals_sign "" s ∙ ap (String.◌∷◌ equals_sign) (nil-append s)

cut_assignment :
    (key value : String)
    → has_char b'=' key ≡ false
    → cut b'=' (key <> "=" <> value) ≡ some (key, value)
cut_assignment key value h =
    ap (λ s. cut b'=' (key <> s)) (equals-append value)
    ∙ cut-append b'=' equals_sign key value refl h

trim_right-equals : (s : String) → trim_right ("=" <> s) ≡ "=" <> trim_right s
unfolding is_space
trim_right-equals s =
    ap trim_right (equals-append s)
    ∙ trim_right-cons equals_sign s refl
    ∙ sym (equals-append (trim_right s))

equals-not-empty : (s : String) → ("=" <> s == "") ≡ false
equals-not-empty s = rw (equals-append s) (cons-not-empty equals_sign s)

-- A line `key=value` gives the key its value without white space at the end, and nothing to another
-- key.
pub assigned-assignment :
    (key other value : String)
    → is_key key ≡ true
    → assigned other (key <> "=" <> value)
      ≡ (if key == other then some (trim_right value) else none)
assigned-assignment String.[] other value k = absurd cc
assigned-assignment (String.◌∷◌ c rest) other value k =
    assigned_of_text other _ (String.◌∷◌ c rest <> "=" <> trim_right value) (String.◌∷◌ c rest)
      (trim_right value)
      (trim_space-append c rest ("=" <> value) not_space full
        ∙ ap (λ s. String.◌∷◌ c rest <> s) (trim_right-equals value))
      (append-not-empty (String.◌∷◌ c rest) _ (equals-not-empty (trim_right value)))
      (rw (cons-append c rest ("=" <> trim_right value)) not_hash)
      (cut_assignment (String.◌∷◌ c rest) (trim_right value) no_equals)
  where
    not_space : is_space c ≡ false
    not_space = ground (arith, k)

    not_hash : (code c == b'#') ≡ false
    not_hash = ground (arith, k)

    no_equals : has_char b'=' (String.◌∷◌ c rest) ≡ false
    no_equals = ground (arith, k)

    full : (trim_right ("=" <> value) == "") ≡ false
    full = rw (trim_right-equals value) (equals-not-empty (trim_right value))
