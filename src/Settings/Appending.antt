-- ===== src/Settings/Appending.antt =====
-- The lines that `updateEnvFile` writes for its updates, as `readEnvValues` reads them.
use project_talos.Prelude.{
  String, ◌≡◌, refl, ◌∙◌, sym, ap, subst, Bool, true, false, not, ◌&&◌, ◌||◌, Option, none, some,
  List, [], ◌∷◌, where_rows, All, insert_text, sort_strings, trim_right, has_char, ◌==◌, string_eq,
  eq_iff, if◌then◌else◌, Bool-cases, Option-cases, inl, inr, arith,
}
use project_talos.Settings.EnvFile.{
  Dict, lookup, remove_key, assignment, preferred_order, assign_found, keys_of, is_among,
  assignments, appended_lines,
}
use project_talos.Settings.Reading.{or_else, value_of, value_of-append, is_key, assigned-assignment}

-- An update that the reader reads back: a key as `readEnvValues` reads it, and a value of one line
-- that ends without white space.
abbrev pub IsCleanEntry : String × String → Type 0
IsCleanEntry entry =
    (is_key entry.0 ≡ true) × (trim_right entry.1 ≡ entry.1) × (has_char b'\n' entry.1 ≡ false)

abbrev pub IsClean : Dict → Type 0
IsClean updates = All IsCleanEntry updates

-- What an update leaves to be read: an empty value is not written.
abbrev pub given : Option String → Option String
given none = none
given (some value) = if value == "" then none else some value

pub lookup-IsClean :
    (key value : String) (m : Dict)
    → IsClean m
    → lookup key m ≡ some value
    → IsCleanEntry (key, value)
unfolding lookup
lookup-IsClean key value [] c h = absurd cc
lookup-IsClean key value ((k, v) ∷ m) c h = elim (Bool-cases (k == key)) [
  | inl p ↦
      let e : some v ≡ some value =
        subst (λ b. (if b then some v else lookup key m) ≡ some value) p h in
      let i : k ≡ key = (eq_iff k key).0 p in let j : v ≡ value = cc in rw (← i, ← j) c.0
  | inr p ↦
      lookup-IsClean key value m c.1
        (subst (λ b. (if b then some v else lookup key m) ≡ some value) p h)
]

pub remove_key-IsClean : (key : String) (m : Dict) → IsClean m → IsClean (remove_key key m)
unfolding remove_key
remove_key-IsClean key [] c = tt
remove_key-IsClean key ((k, v) ∷ m) c = elim (Bool-cases (k == key)) [
  | inl p ↦ rw (p) (remove_key-IsClean key m c.1)
  | inr p ↦ rw (p) (c.0, remove_key-IsClean key m c.1)
]

pub value_of-assignment :
    (key other value : String)
    → IsCleanEntry (other, value)
    → value_of key (assignment other value) ≡ (if other == key then given (some value) else none)
unfolding value_of assignment
value_of-assignment key other value c = elim (Bool-cases (value == "")) [
  | inl p ↦ ground (arith, p)
  | inr p ↦ rw (p) (rw (assigned-assignment other key value c.0, c.1) refl)
]

value_of-assign_found :
    (key other : String) (m : Dict)
    → IsClean m
    → value_of key (assign_found other (lookup other m))
      ≡ (if other == key then given (lookup other m) else none)
unfolding value_of
value_of-assign_found key other m c = elim (Option-cases (lookup other m)) [
  | inl n ↦ rw (n) (ground arith)
  | inr (v, e) ↦ rw (e) (value_of-assignment key other v (lookup-IsClean other v m c e))
]

or_else-among :
    (a b : Bool) (g h : Option String)
    → (b ≡ true → h ≡ g)
    → or_else (if a then g else none) (if b then h else none)
      ≡ (if (if b then true else a) then g else none)
or_else-among true true none h e = e refl
or_else-among true true (some v) h e = refl
or_else-among true false none h e = refl
or_else-among true false (some v) h e = refl
or_else-among false true g h e = e refl
or_else-among false false g h e = refl

value_of-assignments :
    (key : String) (keys : List String) (m : Dict)
    → IsClean m
    → value_of key (assignments keys m) ≡ (if is_among keys key then given (lookup key m) else none)
unfolding value_of assignments
value_of-assignments key [] m c = refl
value_of-assignments key (other ∷ keys) m c =
    value_of-append key (assign_found other (lookup other m)) (assignments keys m)
    ∙ rw (value_of-assignments key keys m c, value_of-assign_found key other m c) same
  where
    same :
        or_else
          (if is_among keys key then given (lookup key m) else none)
          (if other == key then given (lookup other m) else none)
        ≡ (if is_among (other ∷ keys) key then given (lookup key m) else none)
    same =
        or_else-among (is_among keys key) (other == key) _ _
          (λ p. ap (λ k. given (lookup k m)) ((eq_iff other key).0 p))

is_among-insert_text :
    (key other : String) (keys : List String)
    → is_among (insert_text other keys) key ≡ (other == key || is_among keys key)
is_among-insert_text key other [] = ground arith
is_among-insert_text key other (k ∷ keys) = ground (arith, is_among-insert_text key other keys)

is_among-sort_strings :
    (key : String) (keys : List String) → is_among (sort_strings keys) key ≡ is_among keys key
is_among-sort_strings key [] = refl
is_among-sort_strings key (k ∷ keys) =
    is_among-insert_text key k (sort_strings keys) ∙ ground (arith, is_among-sort_strings key keys)

clash : false ≡ true → ⊥
clash h = cc

drop_among :
    (x y b : Bool) → (b ≡ true → x ≡ true) → (not x && y) ≡ (not x && (if b then true else y))
drop_among true y b h = refl
drop_among false y false h = refl
drop_among false y true h = absurd (clash (h refl))

keep_among :
    (x y z b : Bool)
    → (b ≡ true → x ≡ false)
    → z ≡ (not x && y)
    → (if b then true else z) ≡ (not x && (if b then true else y))
keep_among x y z false h e = e
keep_among false y z true h e = refl
keep_among true y z true h e = absurd (clash (sym (h refl)))

is_among-others :
    (key : String) (first keys : List String)
    → is_among (where_rows (λ k. not (is_among first k)) keys) key
      ≡ (not (is_among first key) && is_among keys key)
is_among-others key first [] = ground arith
is_among-others key first (k ∷ keys) = elim (Bool-cases (is_among first k)) [
  | inl f ↦ rw (f) (
      is_among-others key first keys
      ∙ drop_among (is_among first key) (is_among keys key) (k == key)
          (λ p. ap (is_among first) (sym ((eq_iff k key).0 p)) ∙ f))
  | inr f ↦ rw (f) (
      keep_among (is_among first key) (is_among keys key) _ (k == key)
        (λ p. ap (is_among first) (sym ((eq_iff k key).0 p)) ∙ f) (is_among-others key first keys))
]

lookup-not-among :
    (key : String) (m : Dict) → is_among (keys_of m) key ≡ false → lookup key m ≡ none
unfolding lookup
lookup-not-among key [] h = refl
lookup-not-among key ((k, v) ∷ m) h = ground (arith, lookup-not-among key m)

pub refl_or : (o : Option String) → or_else o none ≡ o
refl_or none = refl
refl_or (some v) = refl

pub value_of-appended_lines :
    (key : String) (m : Dict) → IsClean m → value_of key (appended_lines m) ≡ given (lookup key m)
unfolding appended_lines
value_of-appended_lines key m c =
    value_of-append key (assignments preferred_order m) _
    ∙ rw (value_of-assignments key _ m c) (
        rw (value_of-assignments key preferred_order m c) (
          rw (is_among-sort_strings key _) (
            rw (is_among-others key preferred_order (keys_of m)) (
              both_parts (is_among preferred_order key) (is_among (keys_of m) key) (lookup key m)
                (lookup-not-among key m)))))
  where
    both_parts :
        (x y : Bool) (o : Option String)
        → (y ≡ false → o ≡ none)
        → or_else (if not x && y then given o else none) (if x then given o else none) ≡ given o
    both_parts true y o h = refl
    both_parts false true none h = refl
    both_parts false true (some v) h = refl_or (given (some v))
    both_parts false false o h = rw (h refl) refl
