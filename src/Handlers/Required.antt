-- ===== src/Handlers/Required.antt =====
-- internal/server/handlers/service.go with internal/store/service_repo.go: what setting a variable
-- through the API does to the requirement that it has a value.
use project_talos.Prelude.{
  ℕ, String, ◌≡◌, refl, subst, Bool, true, false, ◌&&◌, Option, none, some, List, [], ◌∷◌, ◌++◌,
  head?, All, where_rows, update_where, ◌==◌, string_eq, nat_eq, if◌then◌else◌, Bool-cases, inl,
  inr, arith,
}
use project_talos.Domain.Service.{AppEnvVar}
use project_talos.Action.{◌>>=◌, pure}
use project_talos.Services.{Platform}
use project_talos.Store.{Database, Sqlite}
use project_talos.Store.Deploys.{app_exists}
use project_talos.Store.EnvVars.{
  is_var, find_var, replaced_var, replace_var, set_found, set_app_env_var,
}
use project_talos.Handlers.Services.{ServiceStore, set_env_var}

-- The row is of another variable, or it is not required.
abbrev pub IsOptional : ℕ → String → AppEnvVar → Type 0
IsOptional app_id key row = (is_var app_id key row && row.required) ≡ false

update-IsOptional :
    (v : AppEnvVar) (rows : List AppEnvVar)
    → v.required ≡ false
    → All (IsOptional v.app_id v.key) (update_where (is_var v.app_id v.key) (replaced_var v) rows)
update-IsOptional v [] r = tt
update-IsOptional v (x ∷ rows) r = elim (Bool-cases (is_var v.app_id v.key x)) [
  | inl p ↦ rw (p) (ground (arith, r), update-IsOptional v rows r)
  | inr p ↦ rw (p) (ground (arith, p), update-IsOptional v rows r)
]

append-IsOptional :
    (app_id : ℕ) (key : String) (v : AppEnvVar) (rows : List AppEnvVar)
    → v.required ≡ false
    → find_var app_id key rows ≡ none
    → All (IsOptional app_id key) (rows ++ (v ∷ []))
append-IsOptional app_id key v [] r n = (ground (arith, r), tt)
append-IsOptional app_id key v (x ∷ rows) r n = elim (Bool-cases (is_var app_id key x)) [
  | inl p ↦ absurd (found (subst (λ b. head? (with_row b) ≡ none) p n))
  | inr p ↦ (
    ground (arith, p),
    append-IsOptional app_id key v rows r (subst (λ b. head? (with_row b) ≡ none) p n),
  )
]
  where
    with_row : Bool → List AppEnvVar
    with_row b =
        if b then x ∷ where_rows (is_var app_id key) rows else where_rows (is_var app_id key) rows

    found : some x ≡ none → ⊥
    found h = cc

-- What `SetEnvVar` makes of a request
abbrev requested : ℕ → String → String → Bool → AppEnvVar
requested app_id key value is_secret = record {
  id = 0;
  app_id = app_id;
  key = key;
  value = value;
  is_secret = is_secret;
  required = false;
}

module _ (sqlite : Sqlite) where
  set_found-IsOptional :
      (v : AppEnvVar) (db : Database) (o : Option AppEnvVar)
      → v.required ≡ false
      → app_exists v.app_id db.apps ≡ true
      → find_var v.app_id v.key db.env_vars ≡ o
      → All (IsOptional v.app_id v.key) (set_found sqlite v o db).1.env_vars
  unfolding set_found replace_var
  set_found-IsOptional v db none r a n = rw (a) (append-IsOptional v.app_id v.key _ db.env_vars r n)
  set_found-IsOptional v db (some old) r a n = update-IsOptional v db.env_vars r

  module _ (platform : Platform Database) (store : ServiceStore Database)
      (on_database : (v : AppEnvVar) (db : Database)
        → store.set_app_env_var v db ≡ set_app_env_var sqlite v db) where
    -- A variable of an app that exists, set through the API under a key that is not empty, is not
    -- required afterwards, whether it was before or not.
    pub set_env_var-IsOptional :
        (app_id : ℕ) (key value : String) (is_secret : Bool) (db : Database)
        → (key == "") ≡ false
        → app_exists app_id db.apps ≡ true
        → All
            (IsOptional app_id key)
            (set_env_var platform store (some app_id) (some (key, value, is_secret)) db).1.env_vars
    unfolding set_env_var set_app_env_var ◌>>=◌ pure
    set_env_var-IsOptional app_id key value is_secret db k a = rw (k) (
        rw (on_database (requested app_id key value is_secret) db) (
          set_found-IsOptional (requested app_id key value is_secret) db
            (find_var app_id key db.env_vars) refl a refl))
