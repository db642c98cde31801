-- ===== src/Detect/Target.antt =====
-- Which package go.go builds.
use project_talos.Prelude.{
  String, ◌<>◌, Bool, true, false, ◌&&◌, not, List, [], ◌∷◌, ◌≡◌, ◌≢◌, ◌⊎◌, inl, inr, refl, ap, sym,
  ◌∙◌, arith, ◌==◌, string_eq, eq_iff, eq_refl, if◌then◌else◌, Bool-cases, has_prefix, insert_text,
  sort_strings, where_rows, is_empty, eq_nil_of_is_empty,
}
use project_talos.Detect.Plan.{Project}
use project_talos.Detect.GoMain.{
  contains_dir, skipped, base, first_or, choose_cmd, main_target, module_name, parse_module_name,
  find_main_packages, detect_go_main_target,
}
use project_talos.Detect.MainPackages.{MainIn, EntriesNamed, find_main_packages_lem}

abbrev Has : List String → String → Type 0
Has dirs d = contains_dir d dirs ≡ true

contains_dir-insert_text :
    (d s : String) (ts : List String)
    → contains_dir d (insert_text s ts) ≡ (if s == d then true else contains_dir d ts)
contains_dir-insert_text d s [] = refl
contains_dir-insert_text d s (t ∷ ts) = ground (arith, contains_dir-insert_text d s ts)

contains_dir-sort_strings :
    (d : String) (ts : List String) → contains_dir d (sort_strings ts) ≡ contains_dir d ts
contains_dir-sort_strings d [] = refl
contains_dir-sort_strings d (t ∷ ts) =
    contains_dir-insert_text d t (sort_strings ts)
    ∙ ap (λ b. if t == d then true else b) (contains_dir-sort_strings d ts)

same_test : (test : String → Bool) (t d : String) → (t == d) ≡ true → test t ≡ test d
same_test test t d s = ap test ((eq_iff t d).0 s)

Has-where_rows :
    (test : String → Bool) (d : String) (dirs : List String)
    → Has (where_rows test dirs) d
    → Has dirs d × (test d ≡ true)
Has-where_rows test d [] h = absurd (cc)
Has-where_rows test d (t ∷ ts) h = ground (arith, Has-where_rows test d ts, same_test test t d)

where_rows-Has :
    (test : String → Bool) (d : String) (dirs : List String)
    → Has dirs d
    → test d ≡ true
    → Has (where_rows test dirs) d
where_rows-Has test d [] h t = absurd (cc)
where_rows-Has test d (t ∷ ts) h k = ground (arith, where_rows-Has test d ts, same_test test t d)

first_or-Has :
    (default : String) (dirs : List String)
    → is_empty dirs ≡ false
    → Has dirs (first_or default dirs)
first_or-Has default [] h = absurd (cc)
first_or-Has default (d ∷ ds) h = rw (eq_refl d) refl

is_empty-Has : (dirs : List String) (d : String) → Has dirs d → is_empty dirs ≡ false
is_empty-Has [] d h = absurd (cc)
is_empty-Has (x ∷ xs) d h = refl

-- The folder below `cmd` that is chosen is one of them, and has the module's name if one of them has.
choose_cmd-Has :
    (last_seg : String) (dirs : List String)
    → is_empty dirs ≡ false
    → Has dirs (choose_cmd last_seg dirs)
unfolding choose_cmd
choose_cmd-Has last_seg dirs h =
    let test = λ (d : String). not (last_seg == "") && base d == last_seg in
    let named = where_rows test dirs in
    elim (Bool-cases (is_empty named)) [
      | inl e ↦ rw (eq_nil_of_is_empty named e) (first_or-Has "" dirs h)
      | inr f ↦
          (Has-where_rows test (first_or (first_or "" dirs) named) dirs
            (first_or-Has (first_or "" dirs) named f)).0
    ]

choose_cmd-base :
    (last_seg d : String) (dirs : List String)
    → Has dirs d
    → base d ≡ last_seg
    → last_seg ≢ ""
    → base (choose_cmd last_seg dirs) ≡ last_seg
unfolding choose_cmd
choose_cmd-base last_seg d dirs h same ne =
    let test = λ (e : String). not (last_seg == "") && base e == last_seg in
    let named = where_rows test dirs in
    let k : test d ≡ true = rw (same) (ground (arith, eq_iff last_seg "", eq_refl last_seg, ne)) in
    let chosen = first_or (first_or "" dirs) named in
    let full = is_empty-Has named d (where_rows-Has test d dirs h k) in
    let found = Has-where_rows test chosen dirs (first_or-Has (first_or "" dirs) named full) in
    (eq_iff (base chosen) last_seg).0 (ground (arith, found.1))

-- No folder of the project with a main package is on a path that begins with `cmd`.
abbrev pub NoCmd : (String → Type 0) → Type 0
NoCmd In = (d : String) → In d → has_prefix d "cmd" ≡ false

-- What is chosen among the folders that are `In`: all, if there is none; else one on a path that
-- begins with `cmd`, and with the module's name if one of those has it; else the root; else another.
abbrev pub Chosen : (String → Type 0) → String → String → Type 0
Chosen In last_seg target =
    ((target ≡ "./...") × ((d : String) → ¬ In d))
    ⊎ ((e : String) × In e
        × (has_prefix e "cmd" ≡ true)
        × (target ≡ "./" <> e)
        × ((base e ≡ last_seg)
            ⊎ ((d : String)
                → In d
                → has_prefix d "cmd" ≡ true
                → last_seg ≢ ""
                → base d ≢ last_seg)))
    ⊎ ((target ≡ ".") × In "." × NoCmd In)
    ⊎ ((e : String) × In e × (target ≡ "./" <> e) × NoCmd In × ¬ In ".")

Chosen-map :
    (P Q : String → Type 0) (last_seg target : String)
    → ((d : String) → P d → Q d)
    → ((d : String) → Q d → P d)
    → Chosen P last_seg target
    → Chosen Q last_seg target
Chosen-map P Q last_seg target to from (inl (t, n)) = inl (t, λ d q. n d (from d q))
Chosen-map P Q last_seg target to from (inr (inl (e, h, c, t, inl b))) =
    inr (inl (e, to e h, c, t, inl b))
Chosen-map P Q last_seg target to from (inr (inl (e, h, c, t, inr n))) =
    inr (inl (e, to e h, c, t, inr (λ d q. n d (from d q))))
Chosen-map P Q last_seg target to from (inr (inr (inl (t, h, n)))) =
    inr (inr (inl (t, to "." h, λ d q. n d (from d q))))
Chosen-map P Q last_seg target to from (inr (inr (inr (e, h, t, n, r)))) =
    inr (inr (inr (e, to e h, t, λ d q. n d (from d q), λ q. r (from "." q))))

no_dirs : (dirs : List String) → is_empty dirs ≡ true → (d : String) → ¬ Has dirs d
no_dirs dirs e d has = let f = is_empty-Has dirs d has in absurd (cc)

no_cmd :
    (dirs : List String)
    → is_empty (sort_strings (where_rows (λ d. has_prefix d "cmd") dirs)) ≡ true
    → NoCmd (Has dirs)
no_cmd dirs e d has = elim (Bool-cases (has_prefix d "cmd")) [
  | inl t ↦ absurd (
      no_dirs (sort_strings (where_rows (λ d. has_prefix d "cmd") dirs)) e d
        (contains_dir-sort_strings d _ ∙ where_rows-Has (λ d. has_prefix d "cmd") d dirs has t))
  | inr f ↦ f
]

main_target-cmd :
    (last_seg : String) (dirs : List String)
    → is_empty dirs ≡ false
    → is_empty (sort_strings (where_rows (λ d. has_prefix d "cmd") dirs)) ≡ false
    → Chosen (Has dirs) last_seg (main_target last_seg dirs)
unfolding main_target
main_target-cmd last_seg dirs full f =
    let rows = where_rows (λ d. has_prefix d "cmd") dirs in
    let e = choose_cmd last_seg (sort_strings rows) in
    let (has, cmd) =
      Has-where_rows (λ d. has_prefix d "cmd") e dirs
        (sym (contains_dir-sort_strings e rows) ∙ choose_cmd-Has last_seg (sort_strings rows) f) in
    inr (
      inl (
        e,
        has,
        cmd,
        rw (full, f) refl,
        elim (Bool-cases (base e == last_seg)) [
          | inl t ↦ inl ((eq_iff (base e) last_seg).0 t)
          | inr n ↦ inr λ d h c ne same.
              let named =
                choose_cmd-base last_seg d (sort_strings rows)
                  (contains_dir-sort_strings d rows
                    ∙ where_rows-Has (λ d. has_prefix d "cmd") d dirs h c)
                  same ne in
              let t = (eq_iff (base e) last_seg).1 named in absurd (cc)
        ],
      ))

main_target-Chosen :
    (last_seg : String) (dirs : List String)
    → Chosen (Has dirs) last_seg (main_target last_seg dirs)
unfolding main_target
main_target-Chosen last_seg dirs =
    let cmd_dirs = sort_strings (where_rows (λ d. has_prefix d "cmd") dirs) in
    elim (Bool-cases (is_empty dirs)) [
      | inl none_at_all ↦ inl (rw none_at_all refl, no_dirs dirs none_at_all)
      | inr full ↦ elim (Bool-cases (is_empty cmd_dirs)) [
        | inl e ↦ elim (Bool-cases (contains_dir "." dirs)) [
          | inl root ↦ inr (inr (inl (rw (full, e, root) refl, root, no_cmd dirs e)))
          | inr not_root ↦ inr (
              inr (
                inr (
                  first_or "" dirs,
                  first_or-Has "" dirs full,
                  rw (full, e, not_root) refl,
                  no_cmd dirs e,
                  λ root. absurd (cc),
                )))
        ]
        | inr f ↦ main_target-cmd last_seg dirs full f
      ]
    ]

-- A folder that the walk reaches, with a main package
abbrev pub HoldsMain : Project → String → Type 0
HoldsMain p d = (skipped p.root_name ≡ false) × MainIn 0 "." p.entries d

abbrev pub last_segment : Project → String
last_segment p = module_name (parse_module_name p)

module _ (p : Project) (named : EntriesNamed p.entries) where
  -- The package that is built is `./...` if no folder has a main package. Otherwise it is that of a
  -- folder with one: on a path that begins with `cmd`, if there is such a folder, and then with the
  -- module's name as its last name if one of those has it; else the root, if it has one; else another.
  pub detect_go_main_target_lem : Chosen (HoldsMain p) (last_segment p) (detect_go_main_target p)
  unfolding detect_go_main_target
  detect_go_main_target_lem =
      Chosen-map (Has (find_main_packages p)) (HoldsMain p) (last_segment p) _
        (λ d. (find_main_packages_lem p named d).0) (λ d. (find_main_packages_lem p named d).1)
        (main_target-Chosen (last_segment p) (find_main_packages p))
