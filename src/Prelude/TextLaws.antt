-- ===== src/Prelude/TextLaws.antt =====
-- What trimming, cutting, splitting and joining do to texts that are put together.
use Prim.Native.Nat.{ℕ, ◌+◌}
use Prim.Native.Char.{Char, code}
use Prim.Native.String.{String, ◌++◌}
use mathlib.Core.Path.{◌≡◌, refl, sym, ap, ◌∙◌, subst}
use mathlib.Core.Logic.{◌≢◌, inl, inr}
use mathlib.Core.Bool.{false, ◌||◌}
use mathlib.Core.Option.{Option, none, some}
use mathlib.Core.List.{List, [], ◌∷◌, ◌++◌ as ◌++ᴸ◌}
use native.Mathlib.Omega.{arith}
use text.Mathlib.TextEquality.{eq_iff, Char-path}
use text.Mathlib.TextLemmas.{nil-append, cons-append, cons≢nil, append-nil, append_assoc}
use project_talos.Prelude.Tests.{◌==◌, nat_eq, string_eq, nat_beq_iff, Bool-cases, if◌then◌else◌}
use project_talos.Prelude.Lists.{All}
use project_talos.Prelude.Text.{is_space, trim_left, trim_right, trim_space, join}
use project_talos.Prelude.Lines.{push_first, split, before, cut, has_char, count_char}

pub cons-not-empty : (c : Char) (s : String) → (String.◌∷◌ c s == "") ≡ false
cons-not-empty c s = elim (Bool-cases (String.◌∷◌ c s == "")) [
  | inl p ↦ absurd (cons≢nil ((eq_iff _ _).0 p))
  | inr p ↦ p
]

pub append-not-empty : (s v : String) → (v == "") ≡ false → (s ++ v == "") ≡ false
append-not-empty String.[] v h = rw (nil-append v) h
append-not-empty (String.◌∷◌ c s) v h = rw (cons-append c s v) (cons-not-empty c (s ++ v))

-- What `trim_right` leaves ends without white space.
trim_right_idem : (s : String) → trim_right (trim_right s) ≡ trim_right s
unfolding trim_right
trim_right_idem String.[] = refl
trim_right_idem (String.◌∷◌ c s) = elim (Bool-cases (trim_right s == "")) [
  | inl p ↦ elim (Bool-cases (is_space c)) [ inl q ↦ rw (p, q) refl | inr q ↦ rw (p, q) (rw q) ]
  | inr p ↦ rw (p) (rw (trim_right_idem s, p) refl)
]

pub trim_right-trim_space : (s : String) → trim_right (trim_space s) ≡ trim_space s
unfolding trim_space
trim_right-trim_space s = trim_right_idem (trim_left s)

pub trim_right-append :
    (s v : String) → (trim_right v == "") ≡ false → trim_right (s ++ v) ≡ s ++ trim_right v
unfolding trim_right
trim_right-append String.[] v h = rw (nil-append v) (sym (nil-append (trim_right v)))
trim_right-append (String.◌∷◌ c s) v h = rw (cons-append c s v) (
    rw (trim_right-append s v h)
      (rw (append-not-empty s (trim_right v) h) (sym (cons-append c s (trim_right v)))))

-- A text that begins with another character than white space is trimmed at its end.
pub trim_space-append :
    (c : Char) (s v : String)
    → is_space c ≡ false
    → (trim_right v == "") ≡ false
    → trim_space (String.◌∷◌ c s ++ v) ≡ String.◌∷◌ c s ++ trim_right v
unfolding trim_space trim_left
trim_space-append c s v q h =
    rw (cons-append c s v)
      (rw (q) (ap trim_right (sym (cons-append c s v)) ∙ trim_right-append (String.◌∷◌ c s) v h))

pub trim_right-cons :
    (c : Char) (s : String)
    → is_space c ≡ false
    → trim_right (String.◌∷◌ c s) ≡ String.◌∷◌ c (trim_right s)
unfolding trim_right
trim_right-cons c s q = elim (Bool-cases (trim_right s == "")) [
  | inl p ↦ rw (p) (rw (q) (ap (String.◌∷◌ c) (sym ((eq_iff _ _).0 p))))
  | inr p ↦ rw (p) refl
]

trim_left-trim_right :
    (s : String) → trim_left (trim_right (trim_left s)) ≡ trim_right (trim_left s)
unfolding trim_left trim_right
trim_left-trim_right String.[] = refl
trim_left-trim_right (String.◌∷◌ c s) = elim (Bool-cases (is_space c)) [
  | inl p ↦ rw (p) (trim_left-trim_right s)
  | inr p ↦ rw (p) (rw (trim_right-cons c s p) (rw (p) refl))
]

pub trim_space_idem : (s : String) → trim_space (trim_space s) ≡ trim_space s
unfolding trim_space
trim_space_idem s = ap trim_right (trim_left-trim_right s) ∙ trim_right_idem (trim_left s)

pub has_char-append :
    (sep : ℕ) (s t : String) → has_char sep (s ++ t) ≡ (has_char sep s || has_char sep t)
has_char-append sep String.[] t = rw (nil-append t) refl
has_char-append sep (String.◌∷◌ c s) t =
    rw (cons-append c s t) (rw (has_char-append sep s t) (ground arith))

not_in_rest :
    (sep : ℕ) (d : Char) (s : String)
    → (code d == sep) ≡ false
    → has_char sep (String.◌∷◌ d s) ≡ false
    → has_char sep s ≡ false
not_in_rest sep d s p h = ground (arith, h, p)

not_first :
    (sep : ℕ) (d : Char) (s : String)
    → has_char sep (String.◌∷◌ d s) ≡ false
    → (code d == sep) ≡ false
not_first sep d s h = ground (arith, h)

-- The first separator ends the part that is cut off.
pub cut-append :
    (sep : ℕ) (c : Char) (key value : String)
    → code c ≡ sep
    → has_char sep key ≡ false
    → cut sep (key ++ String.◌∷◌ c value) ≡ some (key, value)
cut-append sep c String.[] value e h = rw (nil-append (String.◌∷◌ c value)) (ground (arith))
cut-append sep c (String.◌∷◌ d key) value e h = elim (Bool-cases (code d == sep)) [
  | inl p ↦ absurd cc
  | inr p ↦
      rw (cons-append d key (String.◌∷◌ c value))
        (rw (p) (rw (cut-append sep c key value e (not_in_rest sep d key p h)) refl))
]

before-eq-some :
    (c : Char) (o : Option (String × String)) (key value : String)
    → before c o ≡ some (key, value)
    → (rest : String) × (String.◌∷◌ c rest ≡ key) × (o ≡ some (rest, value))
before-eq-some c none key value h = absurd cc
before-eq-some c (some (k, v)) key value h = (k, cc, cc)

-- A text that is cut is its two parts with the separator between them.
pub cut-eq-some :
    (sep : Char) (text key value : String)
    → cut (code sep) text ≡ some (key, value)
    → (text ≡ key ++ String.◌∷◌ sep value) × (has_char (code sep) key ≡ false)
cut-eq-some sep String.[] key value h = absurd cc
cut-eq-some sep (String.◌∷◌ c s) key value h = elim (Bool-cases (code c == code sep)) [
  | inl p ↦
      let e : some ("", s) ≡ some (key, value) =
        subst (λ b. (if b then some ("", s) else before c (cut (code sep) s)) ≡ some (key, value)) p
          h in
      let k : "" ≡ key = cc in
      let v : s ≡ value = cc in
      let same : c ≡ sep = Char-path c sep ((nat_beq_iff (code c) (code sep)).0 p) in
      rw (← k, ← v, same) (sym (nil-append (String.◌∷◌ sep s)), refl)
  | inr p ↦
      let e : before c (cut (code sep) s) ≡ some (key, value) =
        subst (λ b. (if b then some ("", s) else before c (cut (code sep) s)) ≡ some (key, value)) p
          h in
      let (rest, k, e') = before-eq-some c (cut (code sep) s) key value e in
      let (t, l) = cut-eq-some sep s rest value e' in
      rw (← k) (ap (String.◌∷◌ c) t ∙ sym (cons-append c rest (String.◌∷◌ sep value)), rw (p) l)
]

abbrev pub Lacks : ℕ → List String → Type 0
Lacks sep parts = All (λ part. has_char sep part ≡ false) parts

push_first-Lacks :
    (sep : ℕ) (c : Char) (parts : List String)
    → (code c == sep) ≡ false
    → Lacks sep parts
    → Lacks sep (push_first c parts)
push_first-Lacks sep c [] p h = (rw (p) refl, tt)
push_first-Lacks sep c (part ∷ parts) p h = (rw (p) h.0, h.1)

-- No part of a split text holds the separator.
pub split-Lacks : (sep : ℕ) (s : String) → Lacks sep (split sep s)
split-Lacks sep String.[] = (refl, tt)
split-Lacks sep (String.◌∷◌ c s) = elim (Bool-cases (code c == sep)) [
  | inl p ↦ rw (p) (refl, split-Lacks sep s)
  | inr p ↦ rw (p) (push_first-Lacks sep c (split sep s) p (split-Lacks sep s))
]

pub split_whole : (sep : ℕ) (s : String) → has_char sep s ≡ false → split sep s ≡ s ∷ []
split_whole sep String.[] h = refl
split_whole sep (String.◌∷◌ c s) h =
    let p = not_first sep c s h in rw (p) (rw (split_whole sep s (not_in_rest sep c s p h)) refl)

pub split-append :
    (sep : ℕ) (c : Char) (s rest : String)
    → code c ≡ sep
    → has_char sep s ≡ false
    → split sep (s ++ String.◌∷◌ c rest) ≡ s ∷ split sep rest
split-append sep c String.[] rest e h = rw (nil-append (String.◌∷◌ c rest)) (ground arith)
split-append sep c (String.◌∷◌ d s) rest e h =
    let p = not_first sep d s h in
    rw (cons-append d s (String.◌∷◌ c rest))
      (rw (p) (rw (split-append sep c s rest e (not_in_rest sep d s p h)) refl))

abbrev pub newline : Char
newline = "\n"

pub newline-append : (s : String) → "\n" ++ s ≡ String.◌∷◌ newline s
newline-append s = cons-append newline "" s ∙ ap (String.◌∷◌ newline) (nil-append s)

split-newline :
    (line rest : String)
    → has_char 10 line ≡ false
    → split 10 (line ++ "\n" ++ rest) ≡ line ∷ split 10 rest
split-newline line rest h =
    ap (λ s. split 10 (line ++ s)) (newline-append rest) ∙ split-append 10 newline line rest refl h

-- Joined lines are split where they were joined.
pub split-join :
    (line : String) (lines : List String)
    → Lacks 10 (line ∷ lines)
    → split 10 (join "\n" (line ∷ lines)) ≡ line ∷ lines
split-join line [] h = split_whole 10 line h.0
split-join line (next ∷ lines) h =
    split-newline line (join "\n" (next ∷ lines)) h.0
    ∙ ap (λ rest. line ∷ rest) (split-join next lines h.1)

-- So are lines that end with a line end, which opens an empty last line.
pub split-join-newline :
    (line : String) (lines : List String)
    → Lacks 10 (line ∷ lines)
    → split 10 (join "\n" (line ∷ lines) ++ "\n") ≡ (line ∷ lines) ++ᴸ ("" ∷ [])
split-join-newline line [] h =
    ap (λ s. split 10 (line ++ s)) (sym (append-nil "\n")) ∙ split-newline line "" h.0
split-join-newline line (next ∷ lines) h =
    ap (split 10) (regroup (join "\n" (next ∷ lines)))
    ∙ split-newline line (join "\n" (next ∷ lines) ++ "\n") h.0
    ∙ ap (λ rest. line ∷ rest) (split-join-newline next lines h.1)
  where
    regroup : (s : String) → (line ++ "\n" ++ s) ++ "\n" ≡ line ++ "\n" ++ (s ++ "\n")
    regroup s = append_assoc line ("\n" ++ s) "\n" ∙ ap (λ t. line ++ t) (append_assoc "\n" s "\n")

pub count_char-append :
    (sep : ℕ) (s t : String) → count_char sep (s ++ t) ≡ count_char sep s + count_char sep t
count_char-append sep String.[] t = rw (nil-append t) (omega arith)
count_char-append sep (String.◌∷◌ c s) t =
    rw (cons-append c s t) (ground (arith, count_char-append sep s t))

pub ne_false : (s t : String) → s ≢ t → (s == t) ≡ false
ne_false s t h = ground (arith, eq_iff s t)
