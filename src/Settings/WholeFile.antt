-- ===== src/Settings/WholeFile.antt =====
-- The env file as one text: what `readEnvValues` reads after `updateEnvFile` has written.
use project_talos.Prelude.{
  String, ◌<>◌, ◌≡◌, refl, ◌∙◌, sym, ap, false, none, List, [], ◌∷◌, All-append, split, split-Lacks,
  join, has_char, has_char-append, split-join, split-join-newline, Lacks, ends_with, cut,
  trim_space, ◌==◌, string_eq, Bool-cases, Option-cases, inl, inr, arith,
}
use project_talos.Settings.EnvFile.{
  Dict, lookup, assignment, replace_value, replace_cut, replace_line, replace_lines,
  preferred_order, assign_found, assignments, appended_lines, updated_lines, with_newline,
  update_env, parse_env,
}
use project_talos.Settings.Reading.{assigned, value_of, value_of-append, lookup-read_lines}
use project_talos.Settings.Appending.{
  IsCleanEntry, IsClean, lookup-IsClean, remove_key-IsClean, refl_or,
}
use project_talos.Settings.Updating.{updated_value, updated_value-none, value_of-updated_lines}

-- No line that is written holds a line end.
assignment-Lacks :
    (key value : String) → IsCleanEntry (key, value) → Lacks 10 (assignment key value)
unfolding assignment
assignment-Lacks key value c = elim (Bool-cases (value == "")) [
  | inl p ↦ rw (p) tt
  | inr p ↦ rw (p) (no_line_end, tt)
]
  where
    no_line_end : has_char 10 (key <> "=" <> value) ≡ false
    no_line_end =
        has_char-append 10 key ("=" <> value)
        ∙ rw (has_char-append 10 "=" value) (ground (arith, c.0, c.2))

assign_found-Lacks :
    (key : String) (m : Dict) → IsClean m → Lacks 10 (assign_found key (lookup key m))
assign_found-Lacks key m c = elim (Option-cases (lookup key m)) [
  | inl n ↦ rw (n) tt
  | inr (v, e) ↦ rw (e) (assignment-Lacks key v (lookup-IsClean key v m c e))
]

assignments-Lacks : (keys : List String) (m : Dict) → IsClean m → Lacks 10 (assignments keys m)
unfolding assignments
assignments-Lacks [] m c = tt
assignments-Lacks (key ∷ keys) m c =
    All-append _ (assign_found key (lookup key m)) _ (assign_found-Lacks key m c)
      (assignments-Lacks keys m c)

appended_lines-Lacks : (m : Dict) → IsClean m → Lacks 10 (appended_lines m)
unfolding appended_lines
appended_lines-Lacks m c =
    All-append _ (assignments preferred_order m) _ (assignments-Lacks preferred_order m c)
      (assignments-Lacks _ m c)

-- One line of the loop keeps the updates clean, and writes no line end.
replace_line-Lacks :
    (line : String) (m : Dict)
    → has_char 10 line ≡ false
    → IsClean m
    → Lacks 10 (replace_line line m).0 × IsClean (replace_line line m).1
unfolding replace_line replace_cut replace_value
replace_line-Lacks line m l c = elim (Option-cases (cut b'=' line)) [
  | inl n ↦ rw (n) ((l, tt), c)
  | inr ((key, value), e) ↦ elim (Option-cases (lookup key m)) [
    | inl n ↦ rw (e) (rw (n) ((l, tt), c))
    | inr (u, f) ↦
        rw (e)
          (rw (f) (assignment-Lacks key u (lookup-IsClean key u m c f), remove_key-IsClean key m c))
  ]
]

replace_lines-Lacks :
    (lines : List String) (m : Dict)
    → Lacks 10 lines
    → IsClean m
    → Lacks 10 (replace_lines lines m).0 × IsClean (replace_lines lines m).1
unfolding replace_lines
replace_lines-Lacks [] m l c = (tt, c)
replace_lines-Lacks (line ∷ lines) m l c =
    let (here, left) = replace_line-Lacks line m l.0 c in
    let (rest, left') = replace_lines-Lacks lines (replace_line line m).1 l.1 left in
    (All-append _ (replace_line line m).0 _ here rest, left')

updated_lines-Lacks :
    (m : Dict) (lines : List String) → Lacks 10 lines → IsClean m → Lacks 10 (updated_lines m lines)
unfolding updated_lines
updated_lines-Lacks m lines l c =
    let (written, left) = replace_lines-Lacks lines m l c in
    All-append _ (replace_lines lines m).0 _ written (appended_lines-Lacks _ left)

blank : (key : String) → assigned key "" ≡ none
unfolding assigned trim_space
blank key = refl

-- The text of some lines is read as the lines are.
value_of-with_newline :
    (key : String) (lines : List String)
    → Lacks 10 lines
    → value_of key (split 10 (with_newline (join "\n" lines))) ≡ value_of key lines
unfolding with_newline value_of
value_of-with_newline key [] l = blank key
value_of-with_newline key (line ∷ lines) l = elim (Bool-cases (join "\n" (line ∷ lines) == "")) [
  | inl p ↦ rw (p) (ap (value_of key) (split-join line lines l))
  | inr p ↦ elim (Bool-cases (ends_with 10 (join "\n" (line ∷ lines)))) [
    | inl q ↦ rw (p) (rw (q) (ap (value_of key) (split-join line lines l)))
    | inr q ↦ rw (p) (
        rw (q) (
          ap (value_of key) (split-join-newline line lines l)
          ∙ value_of-append key (line ∷ lines) ("" ∷ [])
          ∙ rw (blank key) refl))
  ]
]

lookup-parse_env : (key text : String) → lookup key (parse_env text) ≡ value_of key (split 10 text)
unfolding parse_env lookup
lookup-parse_env key text =
    lookup-read_lines key (split 10 text) [] ∙ refl_or (value_of key (split 10 text))

value_of-update_env :
    (key : String) (m : Dict) (lines : List String)
    → Lacks 10 lines
    → IsClean m
    → value_of key (split 10 (update_env m lines)) ≡ value_of key (updated_lines m lines)
unfolding update_env
value_of-update_env key m lines l c =
    value_of-with_newline key (updated_lines m lines) (updated_lines-Lacks m lines l c)

pub lookup-update_env :
    (key : String) (m : Dict) (lines : List String)
    → Lacks 10 lines
    → IsClean m
    → lookup key (parse_env (update_env m lines)) ≡ updated_value key (lookup key m) lines
lookup-update_env key m lines l c =
    lookup-parse_env key (update_env m lines)
    ∙ value_of-update_env key m lines l c
    ∙ value_of-updated_lines key m lines c

-- After an update with clean entries, a key of the file reads as follows. If it is updated, the first
-- line that has the key before its first `=` gives way to the new value, or is dropped when that is
-- empty, and where there is no such line the new value stands at the end; a later line of the key
-- still counts, as the last one does. A key that is not updated reads as before.
updated_file_reads :
    (updates : Dict) (text key : String)
    → IsClean updates
    → (lookup key (parse_env (update_env updates (split 10 text)))
        ≡ updated_value key (lookup key updates) (split 10 text))
      × (lookup key updates ≡ none
          → lookup key (parse_env (update_env updates (split 10 text)))
            ≡ lookup key (parse_env text))
updated_file_reads updates text key c = (
  reads,
  λ n.
      reads
      ∙ ap (λ o. updated_value key o (split 10 text)) n
      ∙ updated_value-none key (split 10 text)
      ∙ sym (lookup-parse_env key text),
)
  where
    reads :
        lookup key (parse_env (update_env updates (split 10 text)))
        ≡ updated_value key (lookup key updates) (split 10 text)
    reads = lookup-update_env key updates (split 10 text) (split-Lacks 10 text) c
