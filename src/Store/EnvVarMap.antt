-- ===== src/Store/EnvVarMap.antt =====
-- internal/store/service_repo.go: the table of environment variables as a map from an app and a key
-- to a value, and its history as the values that were replaced.
use project_talos.Prelude.{
  ℕ, String, ◌≡◌, refl, ◌∙◌, sym, ap, subst, Bool, true, false, not, ◌&&◌, Option, none, some, List,
  [], ◌∷◌, ◌++◌, map, where_rows, update_where, head?, ◌==◌, nat_eq, string_eq, nat_beq_iff, eq_iff,
  if◌then◌else◌, Bool-cases, inl, inr, arith,
}
use project_talos.Domain.Service.{AppEnvVar, AppEnvVarHistory}
use project_talos.Store.{Database}
use project_talos.Store.EnvVars.{is_var, find_var, replaced_var}

abbrev pub value : Option AppEnvVar → Option String
value none = none
value (some v) = some v.value

-- The map that the table stands for
abbrev pub value_of : Database → ℕ → String → Option String
value_of db app_id key = value (find_var app_id key db.env_vars)

abbrev pub same_key : ℕ → String → ℕ → String → Bool
same_key a k app_id key = a == app_id && k == key

-- The statements that write variables
pub data Write : Type 0 where
  set : AppEnvVar → Write
  delete : ℕ → String → Write

-- The same writes on a map
abbrev pub written : (ℕ → String → Option String) → Write → ℕ → String → Option String
written m (set v) app_id key =
    if same_key v.app_id v.key app_id key then some v.value else m app_id key
written m (delete a k) app_id key = if same_key a k app_id key then none else m app_id key

abbrev pub run_map : (ℕ → String → Option String) → List Write → ℕ → String → Option String
run_map m [] = m
run_map m (write ∷ writes) = run_map (written m write) writes

-- The values of a key that the writes replace; a deletion replaces none.
abbrev pub replaced : ℕ → String → Option String → Write → List String
replaced app_id key none write = []
replaced app_id key (some old) (delete a k) = []
replaced app_id key (some old) (set v) = if same_key v.app_id v.key app_id key then old ∷ [] else []

abbrev pub replaced_values : ℕ → String → (ℕ → String → Option String) → List Write → List String
replaced_values app_id key m [] = []
replaced_values app_id key m (write ∷ writes) =
    replaced app_id key (m app_id key) write ++ replaced_values app_id key (written m write) writes

abbrev pub history_values : Database → ℕ → String → List String
history_values db app_id key =
    map (λ h. h.value) (where_rows (λ h. h.app_id == app_id && h.key == key) db.env_var_history)

pub same_key_iff :
    (a app_id : ℕ) (k key : String) → same_key a k app_id key ≡ true → (a ≡ app_id) × (k ≡ key)
same_key_iff a app_id k key h =
    ((nat_beq_iff a app_id).0 (ground (arith, h)), (eq_iff k key).0 (ground (arith, h)))

pub find-append :
    (app_id : ℕ) (key : String) (v : AppEnvVar) (vars : List AppEnvVar)
    → find_var v.app_id v.key vars ≡ none
    → value (find_var app_id key (vars ++ (v ∷ []))) ≡ (
        if same_key v.app_id v.key app_id key
        then some v.value
        else value (find_var app_id key vars))
find-append app_id key v [] n = ground arith
find-append app_id key v (w ∷ vars) n = ground (
  arith,
  nat_beq_iff w.app_id app_id,
  nat_beq_iff w.app_id v.app_id,
  nat_beq_iff v.app_id app_id,
  eq_iff w.key key,
  eq_iff w.key v.key,
  eq_iff v.key key,
  find-append app_id key v vars,
)

find-update_same :
    (v old : AppEnvVar) (vars : List AppEnvVar)
    → find_var v.app_id v.key vars ≡ some old
    → value (find_var v.app_id v.key (update_where (is_var v.app_id v.key) (replaced_var v) vars))
      ≡ some v.value
find-update_same v old [] n = absurd cc
find-update_same v old (w ∷ vars) n = elim (Bool-cases (is_var v.app_id v.key w)) [
  | inl p ↦ rw (p) (rw (p) refl)
  | inr p ↦ rw (p) (
      rw (p) (
        find-update_same v old vars (
          subst
            (λ b.
              head? (
                if b
                then w ∷ where_rows (is_var v.app_id v.key) vars
                else where_rows (is_var v.app_id v.key) vars)
              ≡ some old)
            p n)))
]

find-update_other :
    (app_id : ℕ) (key : String) (v : AppEnvVar) (vars : List AppEnvVar)
    → same_key v.app_id v.key app_id key ≡ false
    → value (find_var app_id key (update_where (is_var v.app_id v.key) (replaced_var v) vars))
      ≡ value (find_var app_id key vars)
find-update_other app_id key v [] d = refl
find-update_other app_id key v (w ∷ vars) d = ground (
  arith,
  nat_beq_iff w.app_id app_id,
  nat_beq_iff w.app_id v.app_id,
  nat_beq_iff v.app_id app_id,
  eq_iff w.key key,
  eq_iff w.key v.key,
  eq_iff v.key key,
  find-update_other app_id key v vars,
)

pub find-update :
    (app_id : ℕ) (key : String) (v : AppEnvVar) (old : AppEnvVar) (vars : List AppEnvVar)
    → find_var v.app_id v.key vars ≡ some old
    → value (find_var app_id key (update_where (is_var v.app_id v.key) (replaced_var v) vars)) ≡ (
        if same_key v.app_id v.key app_id key
        then some v.value
        else value (find_var app_id key vars))
find-update app_id key v old vars n = elim (Bool-cases (same_key v.app_id v.key app_id key)) [
  | inl p ↦
      let (a, k) = same_key_iff v.app_id app_id v.key key p in
      rw (p) (rw (← a) (rw (← k) (find-update_same v old vars n)))
  | inr p ↦ rw (p) (find-update_other app_id key v vars p)
]

pub find-delete :
    (app_id a : ℕ) (key k : String) (vars : List AppEnvVar)
    → value (find_var app_id key (where_rows (λ v. not (is_var a k v)) vars))
      ≡ (if same_key a k app_id key then none else value (find_var app_id key vars))
find-delete app_id a key k [] = ground arith
find-delete app_id a key k (w ∷ vars) = ground (
  arith,
  nat_beq_iff w.app_id app_id,
  nat_beq_iff w.app_id a,
  nat_beq_iff a app_id,
  eq_iff w.key key,
  eq_iff w.key k,
  eq_iff k key,
  find-delete app_id a key k vars,
)

pub find-matches :
    (a : ℕ) (k : String) (old : AppEnvVar) (vars : List AppEnvVar)
    → find_var a k vars ≡ some old
    → is_var a k old ≡ true
find-matches a k old [] n = absurd cc
find-matches a k old (w ∷ vars) n = elim (Bool-cases (is_var a k w)) [
  | inl p ↦
      let e : some w ≡ some old =
        subst (λ b. head? (if b then w ∷ rest else rest) ≡ some old) p n in
      ap (is_var a k) (sym (same e)) ∙ p
  | inr p ↦
      find-matches a k old vars (subst (λ b. head? (if b then w ∷ rest else rest) ≡ some old) p n)
]
  where
    rest : List AppEnvVar
    rest = where_rows (is_var a k) vars

    same : some w ≡ some old → w ≡ old
    same e = cc

pub values-append :
    (app_id : ℕ) (key : String) (h : AppEnvVarHistory) (history : List AppEnvVarHistory)
    → map
        (λ h. h.value)
        (where_rows (λ h. h.app_id == app_id && h.key == key) (history ++ (h ∷ [])))
      ≡ map (λ h. h.value) (where_rows (λ h. h.app_id == app_id && h.key == key) history)
        ++ (if same_key h.app_id h.key app_id key then h.value ∷ [] else [])
values-append app_id key h [] = elim (Bool-cases (same_key h.app_id h.key app_id key)) [
  | inl p ↦ rw (p) refl
  | inr p ↦ rw (p) refl
]
values-append app_id key h (x ∷ history) = elim (Bool-cases (same_key x.app_id x.key app_id key)) [
  | inl p ↦ rw (p) (ap (λ vs. x.value ∷ vs) (values-append app_id key h history))
  | inr p ↦ rw (p) (values-append app_id key h history)
]

pub replaced-none :
    (app_id : ℕ) (key : String) (v : AppEnvVar) (o : Option String)
    → (same_key v.app_id v.key app_id key ≡ true → o ≡ none)
    → replaced app_id key o (set v) ≡ []
replaced-none app_id key v none h = refl
replaced-none app_id key v (some old) h = elim (Bool-cases (same_key v.app_id v.key app_id key)) [
  | inl p ↦ absurd (some_none (h p))
  | inr p ↦ rw (p) refl
]
  where
    some_none : some old ≡ none → ⊥
    some_none e = cc

pub replaced-some :
    (app_id : ℕ) (key : String) (v : AppEnvVar) (o : Option String) (old : String)
    → (same_key v.app_id v.key app_id key ≡ true → o ≡ some old)
    → replaced app_id key o (set v) ≡ (if same_key v.app_id v.key app_id key then old ∷ [] else [])
replaced-some app_id key v o old h = elim (Bool-cases (same_key v.app_id v.key app_id key)) [
  | inl p ↦ rw (h p) (rw (p) refl)
  | inr p ↦ replaced-none app_id key v o (λ q. absurd (clash (sym p ∙ q))) ∙ rw (p) refl
]
  where
    clash : false ≡ true → ⊥
    clash e = cc
