-- ===== src/Detect/MainDepth.antt =====
-- How deep an entry of the walk of go.go lies: the slashes of its path, if names are as a file system
-- has them.
use project_talos.Prelude.{
  ℕ, suc, String, ◌<>◌, ◌≡◌, ◌≢◌, ◌⊎◌, inl, inr, ap, sym, arith, ltb, ◌==◌, string_eq, count_char,
  count_char-append, ne_false,
}
use project_talos.Detect.GoMain.{child, too_deep}

-- A file system's names: none holds a slash or is a single dot.
abbrev pub IsName : String → Type 0
IsName name = (count_char b'/' name ≡ 0) × (name ≢ ".")

-- The path of a folder whose entries are `depth` folders below the root's
abbrev pub AtDepth : ℕ → String → Type 0
AtDepth depth dir =
    ((depth ≡ 0) × (dir ≡ ".")) ⊎ ((dir ≢ ".") × (depth ≡ suc (count_char b'/' dir)))

count_child :
    (depth : ℕ) (dir name : String)
    → AtDepth depth dir
    → IsName name
    → count_char b'/' (child dir name) ≡ depth
count_child depth dir name (inl (z, root)) (flat, _) = rw (ap (λ s. s == ".") root) (omega arith)
count_child depth dir name (inr (below, e)) (flat, _) =
    rw (ne_false dir "." below)
      (omega (arith, count_char-append b'/' dir ("/" <> name), count_char-append b'/' "/" name))

child_ne : (depth : ℕ) (dir name : String) → AtDepth depth dir → IsName name → child dir name ≢ "."
child_ne depth dir name (inl (z, root)) (flat, ne) = rw (ap (λ s. s == ".") root) ne
child_ne depth dir name (inr (below, e)) named = λ same.
    let c = count_child depth dir name (inr (below, e)) named in
    let z : count_char b'/' (child dir name) ≡ 0 = ap (count_char b'/') same in absurd (omega arith)

pub child-AtDepth :
    (depth : ℕ) (dir name : String)
    → AtDepth depth dir
    → IsName name
    → AtDepth (suc depth) (child dir name)
child-AtDepth depth dir name at named =
    inr (child_ne depth dir name at named, ap suc (sym (count_child depth dir name at named)))

pub too_deep-at :
    (depth : ℕ) (dir name : String)
    → AtDepth depth dir
    → IsName name
    → too_deep (child dir name) ≡ ltb 3 depth
unfolding too_deep
too_deep-at depth dir name at named = ap (ltb 3) (count_child depth dir name at named)
