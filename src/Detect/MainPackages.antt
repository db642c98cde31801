-- ===== src/Detect/MainPackages.antt =====
-- Which folders the walk of go.go finds.
use project_talos.Prelude.{
  ℕ, suc, ◌≤◌, String, true, false, ◌||◌, ◌&&◌, not, Option, List, [], ◌∷◌, ◌≡◌, ◌⊎◌, ◌↔◌, inl, inr,
  refl, arith, ltb, ◌==◌, string_eq, nat_eq, eq_iff, if◌then◌else◌, Bool-cases, any-append,
}
use project_talos.Detect.Plan.{FileTree, Entries, file, folder, end, entry, Project}
use project_talos.Detect.MainDepth.{IsName, AtDepth, child-AtDepth, too_deep-at}
use project_talos.Detect.GoMain.{
  child, contains_dir, add_dir, skipped, is_main_file, walk, walk_entries, find_main_packages,
}

-- `MainIn depth dir es d`: among the entries `es` of the folder `dir`, which are `depth` folders below
-- the root's, or in the folders below it that are neither vendored nor hidden, the folder `d` holds a
-- Go file that is not a test and declares package main, at most three folders below the root's entries.
abbrev mutual
  pub MainAt : ℕ → String → String → FileTree → String → Type 0
  MainAt depth dir name (file text) d = (depth ≤ 3) × (is_main_file name text ≡ true) × (d ≡ dir)
  MainAt depth dir name (folder es) d =
      (depth ≤ 3) × (skipped name ≡ false) × MainIn (suc depth) (child dir name) es d

  pub MainIn : ℕ → String → Entries → String → Type 0
  MainIn depth dir end d = ⊥
  MainIn depth dir (entry name tree es) d = MainAt depth dir name tree d ⊎ MainIn depth dir es d

abbrev mutual
  pub AllNamed : FileTree → Type 0
  AllNamed (file text) = Unit
  AllNamed (folder es) = EntriesNamed es

  pub EntriesNamed : Entries → Type 0
  EntriesNamed end = Unit
  EntriesNamed (entry name tree es) = IsName name × AllNamed tree × EntriesNamed es

contains_dir-add_dir :
    (d dir : String) (dirs : List String)
    → contains_dir d (add_dir dir dirs) ≡ (if contains_dir d dirs then true else dir == d)
contains_dir-add_dir d dir dirs = elim (Bool-cases (contains_dir dir dirs)) [
  | inl held ↦ rw held (ground (arith, eq_iff dir d, held))
  | inr new ↦ rw new (ground (arith, any-append (λ e. e == d) dirs (dir ∷ [])))
]

Found : String → List String → Type 0 → List String → Type 0
Found d dirs P after = (contains_dir d after ≡ true) ↔ ((contains_dir d dirs ≡ true) ⊎ P)

Found_same : (d : String) (dirs : List String) (P : Type 0) → (P → ⊥) → Found d dirs P dirs
unfolding Found
Found_same d dirs P never = (λ h. inl h, λ h. elim h [ inl held ↦ held | inr p ↦ absurd (never p) ])

Found_added :
    (d dir : String) (dirs : List String) (P : Type 0)
    → P
    → Found d dirs (P × (d ≡ dir)) (add_dir dir dirs)
unfolding Found
Found_added d dir dirs P p =
    let e = contains_dir-add_dir d dir dirs in
    (
      λ h. elim (Bool-cases (contains_dir d dirs)) [
        | inl held ↦ inl held
        | inr new ↦ inr (p, ground (arith, e, eq_iff dir d))
      ],
      λ h. elim h [
        | inl held ↦ ground (arith, e, held)
        | inr (_, same) ↦ ground (arith, e, eq_iff dir d, same)
      ],
    )

Found_file :
    (depth : ℕ) (d dir name : String) (text : Option String) (dirs : List String)
    → AtDepth depth dir
    → IsName name
    → Found d dirs (MainAt depth dir name (file text) d) (walk dir name (file text) dirs)
unfolding walk Found
Found_file depth d dir name text dirs at named =
    let deep = too_deep-at depth dir name at named in
    elim (Bool-cases (not (ltb 3 depth) && is_main_file name text)) [
      | inl t ↦
          let (there, back) = Found_added d dir dirs Unit tt in
          let low : depth ≤ 3 = ground (arith, t) in
          let main : is_main_file name text ≡ true = ground (arith, t) in
          rw (deep, t)
            (
              λ h. elim (there h) [ inl held ↦ inl held | inr (_, same) ↦ inr (low, main, same) ],
              λ h. elim h [ inl held ↦ back (inl held) | inr (_, _, same) ↦ back (inr (tt, same)) ],
            )
      | inr f ↦
          rw (deep, f)
            (Found_same d dirs (MainAt depth dir name (file text) d)
              (λ (low, main, same). ground (arith, f, low, main)))
    ]

Found_folder :
    (depth : ℕ) (d dir name : String) (es : Entries) (dirs : List String)
    → AtDepth depth dir
    → IsName name
    → Found d dirs
        (MainIn (suc depth) (child dir name) es d)
        (walk_entries (child dir name) es dirs)
    → Found d dirs (MainAt depth dir name (folder es) d) (walk dir name (folder es) dirs)
unfolding walk Found
Found_folder depth d dir name es dirs at named (there, back) =
    let deep = too_deep-at depth dir name at named in
    elim (Bool-cases (ltb 3 depth || skipped name)) [
      | inl t ↦
          rw (deep, t)
            (Found_same d dirs (MainAt depth dir name (folder es) d)
              (λ (low, shown, _). ground (arith, t, low, shown)))
      | inr f ↦
          let low : depth ≤ 3 = ground (arith, f) in
          let shown : skipped name ≡ false = ground (arith, f) in
          rw (deep, f)
            (
              λ h. elim (there h) [ inl held ↦ inl held | inr below ↦ inr (low, shown, below) ],
              λ h. elim h [ inl held ↦ back (inl held) | inr (_, _, below) ↦ back (inr below) ],
            )
    ]

Found_both :
    (d : String) (dirs middle after : List String) (P Q : Type 0)
    → Found d dirs P middle
    → Found d middle Q after
    → Found d dirs (P ⊎ Q) after
unfolding Found
Found_both d dirs middle after P Q (there, back) (there', back') = (
  λ h. elim (there' h) [
    | inl m ↦ elim (there m) [ inl held ↦ inl held | inr p ↦ inr (inl p) ]
    | inr q ↦ inr (inr q)
  ],
  λ h. elim h [
    | inl held ↦ back' (inl (back (inl held)))
    | inr (inl p) ↦ back' (inl (back (inr p)))
    | inr (inr q) ↦ back' (inr q)
  ],
)

mutual
  unfolding walk

  Found-walk :
      (depth : ℕ) (d dir name : String) (tree : FileTree) (dirs : List String)
      → AtDepth depth dir
      → IsName name
      → AllNamed tree
      → Found d dirs (MainAt depth dir name tree d) (walk dir name tree dirs)
  Found-walk depth d dir name (file text) dirs at named all =
      Found_file depth d dir name text dirs at named
  Found-walk depth d dir name (folder es) dirs at named all =
      Found_folder depth d dir name es dirs at named (
        Found-walk_entries (suc depth) d (child dir name) es dirs
          (child-AtDepth depth dir name at named) all)

  Found-walk_entries :
      (depth : ℕ) (d dir : String) (es : Entries) (dirs : List String)
      → AtDepth depth dir
      → EntriesNamed es
      → Found d dirs (MainIn depth dir es d) (walk_entries dir es dirs)
  Found-walk_entries depth d dir end dirs at all = Found_same d dirs ⊥ (λ h. h)
  Found-walk_entries depth d dir (entry name tree es) dirs at (named, all, rest) =
      Found_both d dirs (walk dir name tree dirs) (walk_entries dir es (walk dir name tree dirs))
        (MainAt depth dir name tree d) (MainIn depth dir es d)
        (Found-walk depth d dir name tree dirs at named all)
        (Found-walk_entries depth d dir es (walk dir name tree dirs) at rest)

module _ (p : Project) (named : EntriesNamed p.entries) where
  -- The folders that are found are those that hold a main package: a folder is found
  -- exactly when the root is neither vendored nor hidden and `MainIn` holds for it.
  pub find_main_packages_lem :
      (d : String)
      → (contains_dir d (find_main_packages p) ≡ true)
        ↔ ((skipped p.root_name ≡ false) × MainIn 0 "." p.entries d)
  unfolding find_main_packages Found
  find_main_packages_lem d = elim (Bool-cases (skipped p.root_name)) [
    | inl t ↦ rw t (λ h. absurd (cc), λ (f, _). absurd (cc))
    | inr f ↦
        let (there, back) = Found-walk_entries 0 d "." p.entries [] (inl (refl, refl)) named in
        rw f (
          λ h. elim (there h) [ inl held ↦ absurd (cc) | inr m ↦ (refl, m) ],
          λ (_, m). back (inr m),
        )
  ]
