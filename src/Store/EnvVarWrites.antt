-- ===== src/Store/EnvVarWrites.antt =====
-- internal/store/service_repo.go: the writes of environment variables, one after the other.
use project_talos.Prelude.{
  ℕ, String, ◌≡◌, refl, ◌∙◌, sym, ap, true, Option, none, some, List, [], ◌∷◌, ◌++◌, append-nil,
  append_assoc, fun_ext, suc, All, All-map, nat_eq, string_eq, if◌then◌else◌,
}
use project_talos.Domain.Service.{AppEnvVar}
use project_talos.Store.{Database, Sqlite}
use project_talos.Store.Deploys.{app_exists}
use project_talos.Store.EnvVars.{
  find_var, recorded_old, replace_var, set_found, set_app_env_var, delete_app_env_var,
}
use project_talos.Store.EnvVarMap.{
  value, value_of, same_key, Write, set, delete, written, run_map, replaced, replaced_values,
  history_values, same_key_iff, find-append, find-update, find-delete, find-matches, values-append,
  replaced-none, replaced-some,
}

abbrev pub HasApp : Database → Write → Type 0
HasApp db (set v) = app_exists v.app_id db.apps ≡ true
HasApp db (delete a k) = Unit

module _ (sqlite : Sqlite) where
  abbrev pub write : Write → Database → Database
  write (set v) db = (set_app_env_var sqlite v db).1
  write (delete a k) db = (delete_app_env_var sqlite a k db).1

  abbrev pub run_writes : List Write → Database → Database
  run_writes [] db = db
  run_writes (w ∷ ws) db = run_writes ws (write w db)

  -- What one write does to the map, to the history and to the apps
  abbrev Refines : Write → Database → Database → Type 0
  Refines w db db' =
      ((app_id : ℕ) (key : String) → value_of db' app_id key ≡ written (value_of db) w app_id key)
      × ((app_id : ℕ) (key : String)
          → history_values db' app_id key
            ≡ history_values db app_id key ++ replaced app_id key (value_of db app_id key) w)
      × (db'.apps ≡ db.apps)

  set-Refines :
      (v : AppEnvVar) (db : Database) (o : Option AppEnvVar)
      → find_var v.app_id v.key db.env_vars ≡ o
      → app_exists v.app_id db.apps ≡ true
      → Refines (set v) db (set_found sqlite v o db).1
  unfolding set_found replace_var
  set-Refines v db none n a = rw (a) (
    λ app_id key. find-append app_id key (record v { id = suc db.last_env_var_id }) db.env_vars n,
    λ app_id key.
        sym (append-nil (history_values db app_id key))
        ∙ ap (λ vs. history_values db app_id key ++ vs)
            (sym (replaced-none app_id key v (value_of db app_id key) (at app_id key))),
    refl,
  )
    where
      at :
          (app_id : ℕ) (key : String)
          → same_key v.app_id v.key app_id key ≡ true
          → value_of db app_id key ≡ none
      at app_id key p =
          let (i, j) = same_key_iff v.app_id app_id v.key key p in rw (← i) (rw (← j) (ap value n))
  set-Refines v db (some old) n a = (
    λ app_id key. find-update app_id key v old db.env_vars n,
    λ app_id key.
        values-append app_id key (recorded_old old (suc db.last_history_id) db.clock)
          db.env_var_history
        ∙ ap (λ vs. history_values db app_id key ++ vs) (recorded app_id key),
    refl,
  )
    where
      whose : (old.app_id ≡ v.app_id) × (old.key ≡ v.key)
      whose =
          same_key_iff old.app_id v.app_id old.key v.key
            (find-matches v.app_id v.key old db.env_vars n)

      at :
          (app_id : ℕ) (key : String)
          → same_key v.app_id v.key app_id key ≡ true
          → value_of db app_id key ≡ some old.value
      at app_id key p =
          let (i, j) = same_key_iff v.app_id app_id v.key key p in rw (← i) (rw (← j) (ap value n))

      recorded :
          (app_id : ℕ) (key : String)
          → (if same_key old.app_id old.key app_id key then old.value ∷ [] else [])
            ≡ replaced app_id key (value_of db app_id key) (set v)
      recorded app_id key =
          ap (λ a. if same_key a old.key app_id key then old.value ∷ [] else []) whose.0
          ∙ ap (λ k. if same_key v.app_id k app_id key then old.value ∷ [] else []) whose.1
          ∙ sym (replaced-some app_id key v (value_of db app_id key) old.value (at app_id key))

  write-Refines : (w : Write) (db : Database) → HasApp db w → Refines w db (write w db)
  unfolding set_app_env_var delete_app_env_var
  write-Refines (set v) db a = set-Refines v db (find_var v.app_id v.key db.env_vars) refl a
  write-Refines (delete a k) db _ = (
    λ app_id key. find-delete app_id a key k db.env_vars,
    λ app_id key. deleted app_id key (value_of db app_id key) (history_values db app_id key),
    refl,
  )
    where
      deleted :
          (app_id : ℕ) (key : String) (o : Option String) (vs : List String)
          → vs ≡ vs ++ replaced app_id key o (delete a k)
      deleted app_id key none vs = sym (append-nil vs)
      deleted app_id key (some old) vs = sym (append-nil vs)

  -- Any writes of variables of apps that exist, one after the other: the table stands for the map
  -- that the same writes make, and the history of a key gains the values that were replaced, in
  -- order. A deleted value is not among them.
  pub table_refines_map :
      (writes : List Write) (db : Database)
      → All (HasApp db) writes
      → (app_id : ℕ) (key : String)
      → (value_of (run_writes writes db) app_id key ≡ run_map (value_of db) writes app_id key)
        × (history_values (run_writes writes db) app_id key
            ≡ history_values db app_id key ++ replaced_values app_id key (value_of db) writes)
  table_refines_map [] db a app_id key = (refl, sym (append-nil (history_values db app_id key)))
  table_refines_map (w ∷ writes) db a app_id key =
      let (map_eq, history_eq, apps_eq) = write-Refines w db a.0 in
      let map_eq' : value_of (write w db) ≡ written (value_of db) w =
        fun_ext (λ i. fun_ext (λ k. map_eq i k)) in
      let (value_rest, history_rest) =
        table_refines_map writes (write w db) (All-map (keep apps_eq) writes a.1) app_id key in
      (
        value_rest ∙ ap (λ m. run_map m writes app_id key) map_eq',
        history_rest
            ∙ ap (λ vs. vs ++ replaced_values app_id key (value_of (write w db)) writes)
                (history_eq app_id key)
            ∙ append_assoc (history_values db app_id key) _ _
            ∙ ap
                (λ m.
                  history_values db app_id key
                  ++ (replaced app_id key (value_of db app_id key) w
                      ++ replaced_values app_id key m writes))
                map_eq',
      )
    where
      keep : (write w db).apps ≡ db.apps → (x : Write) → HasApp db x → HasApp (write w db) x
      keep e (set v) h = ap (app_exists v.app_id) e ∙ h
      keep e (delete a k) h = tt
