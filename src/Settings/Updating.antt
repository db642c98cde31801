-- ===== src/Settings/Updating.antt =====
-- What the loops of `updateEnvFile` do to the values that `readEnvValues` reads.
use project_talos.Prelude.{
  String, ◌<>◌, ◌≡◌, refl, ◌∙◌, sym, ap, Bool, true, false, ◌&&◌, Option, none, some, List, [], ◌∷◌,
  cut, cut-eq-some, ◌==◌, string_eq, eq_iff, if◌then◌else◌, Bool-cases, Option-cases, inl, inr,
  arith,
}
use project_talos.Settings.EnvFile.{
  Dict, lookup, remove_key, replace_value, replace_cut, replace_line, replace_lines, appended_lines,
  updated_lines,
}
use project_talos.Settings.Reading.{
  or_else, or_else_assoc, assigned, value_of, lookup-remove_key, value_of-append, is_key,
  assigned-assignment, equals_sign, equals-append,
}
use project_talos.Settings.Appending.{
  IsCleanEntry, IsClean, given, lookup-IsClean, remove_key-IsClean, value_of-assignment,
  value_of-appended_lines, refl_or,
}

abbrev names_key : String → Option (String × String) → Bool
names_key key none = false
names_key key (some (k, _)) = k == key

-- The line has the key before its first `=`, with no white space before it.
abbrev pub names : String → String → Bool
names key line = names_key key (cut b'=' line)

abbrev pub is_some : Option String → Bool
is_some none = false
is_some (some _) = true

-- The value of a key after an update: the first line with the key gives way to the update, or the
-- update is added at the end; every other line counts as it did.
unfoldable pub updated_value : String → Option String → List String → Option String
updated_value key update [] = given update
updated_value key update (line ∷ lines) =
    let rest = updated_value key update lines in
    if names key line && is_some update
    then or_else (value_of key lines) (given update)
    else or_else rest (assigned key line)

-- A line with a clean key before its first `=` says nothing of another key.
assigned-other :
    (key other value line : String)
    → is_key other ≡ true
    → cut b'=' line ≡ some (other, value)
    → (other == key) ≡ false
    → assigned key line ≡ none
assigned-other key other value line k c d =
    let (e, _) = cut-eq-some equals_sign line other value c in
    ap (assigned key) (e ∙ ap (λ s. other <> s) (sym (equals-append value)))
    ∙ assigned-assignment other key value k
    ∙ rw (d) refl

pub updated_value-none :
    (key : String) (lines : List String) → updated_value key none lines ≡ value_of key lines
unfolding updated_value value_of
updated_value-none key [] = refl
updated_value-none key (line ∷ lines) = ground (arith, updated_value-none key lines)

not_given :
    (b : Bool) (o x y : Option String)
    → (b ≡ true → o ≡ none)
    → y ≡ (if b && is_some o then x else y)
not_given false o x y h = refl
not_given true none x y h = refl
not_given true (some v) x y h = absurd (is_none (h refl))
  where
    is_none : some v ≡ none → ⊥
    is_none e = cc

-- One line of the loop, when the rest of the file and the end of it are read as `rest` says.
value_of-replace_line :
    (key line : String) (m : Dict) (lines : List String)
    → IsClean m
    → (rest : Dict → Option String)
    → ((left : Dict) → IsClean left → rest left ≡ updated_value key (lookup key left) lines)
    → or_else (rest (replace_line line m).1) (value_of key (replace_line line m).0)
      ≡ updated_value key (lookup key m) (line ∷ lines)
unfolding replace_line replace_cut replace_value value_of updated_value
value_of-replace_line key line m lines c rest ih = elim (Option-cases (cut b'=' line)) [
  | inl n ↦ rw (n) (ap (λ r. or_else r (assigned key line)) (ih m c))
  | inr ((other, value), e) ↦ elim (Option-cases (lookup other m)) [
    | inl n ↦ rw (e) (
        rw (n) (
          ap (λ r. or_else r (assigned key line)) (ih m c)
          ∙ not_given (other == key) (lookup key m) _ _
              (λ p. ap (λ k. lookup k m) (sym ((eq_iff other key).0 p)) ∙ n)))
    | inr (u, f) ↦
        let entry : IsCleanEntry (other, u) = lookup-IsClean other u m c f in
        let rest_left = ih (remove_key other m) (remove_key-IsClean other m c) in
        let given_here = value_of-assignment key other u entry in
        elim (Bool-cases (other == key)) [
          | inl p ↦
              let found : lookup key m ≡ some u =
                ap (λ k. lookup k m) (sym ((eq_iff other key).0 p)) ∙ f in
              let gone : lookup key (remove_key other m) ≡ none =
                lookup-remove_key key other m ∙ rw (p) refl in
              rw (e) (
                rw (f) (
                  rw (rest_left, given_here, gone)
                    (rw (p) (rw (found) (rw (updated_value-none key lines) refl)))))
          | inr p ↦
              let still : lookup key (remove_key other m) ≡ lookup key m =
                lookup-remove_key key other m ∙ rw (p) refl in
              rw (e) (
                rw (f) (
                  rw (rest_left, given_here, still)
                    (rw (p) (rw (assigned-other key other value line entry.0 e p) refl))))
        ]
  ]
]

value_of-replace_lines :
    (key : String) (lines : List String) (m : Dict)
    → IsClean m
    → or_else
        (value_of key (appended_lines (replace_lines lines m).1))
        (value_of key (replace_lines lines m).0)
      ≡ updated_value key (lookup key m) lines
unfolding replace_lines value_of updated_value
value_of-replace_lines key [] m c = refl_or _ ∙ value_of-appended_lines key m c
value_of-replace_lines key (line ∷ lines) m c =
    ap (or_else _) (value_of-append key (replace_line line m).0 _)
    ∙ or_else_assoc (value_of key (appended_lines (replace_lines lines (replace_line line m).1).1))
        (value_of key (replace_lines lines (replace_line line m).1).0)
        (value_of key (replace_line line m).0)
    ∙ value_of-replace_line key line m lines c
        (λ left.
          or_else (value_of key (appended_lines (replace_lines lines left).1))
            (value_of key (replace_lines lines left).0))
        (λ left k. value_of-replace_lines key lines left k)

pub value_of-updated_lines :
    (key : String) (m : Dict) (lines : List String)
    → IsClean m
    → value_of key (updated_lines m lines) ≡ updated_value key (lookup key m) lines
unfolding updated_lines
value_of-updated_lines key m lines c =
    value_of-append key (replace_lines lines m).0 _ ∙ value_of-replace_lines key lines m c
