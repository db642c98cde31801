-- ===== src/Store/EnvVars.antt =====
-- internal/store/service_repo.go: the environment variables of apps, and their history.
use project_talos.Prelude.{
  ℕ, String, Bool, not, ◌&&◌, Option, none, some, List, [], ◌∷◌, ◌++◌, suc, map, where_rows,
  update_where, head?, text_leb, ◌==◌, nat_eq, string_eq, if◌then◌else◌,
}
use project_talos.Domain.{Error, wrap, Result, ok, err}
use project_talos.Domain.Service.{AppEnvVar, AppEnvVarHistory}
use project_talos.Store.{Database, Sqlite}
use project_talos.Store.Deploys.{app_exists}
use project_talos.Action.{Action}

-- The unique key of a variable
abbrev pub is_var : ℕ → String → AppEnvVar → Bool
is_var app_id key v = v.app_id == app_id && v.key == key

abbrev pub find_var : ℕ → String → List AppEnvVar → Option AppEnvVar
find_var app_id key vars = head? (where_rows (is_var app_id key) vars)

abbrev pub insert_by_key : AppEnvVar → List AppEnvVar → List AppEnvVar
insert_by_key v [] = v ∷ []
insert_by_key v (w ∷ vars) =
    let rest = insert_by_key v vars in if text_leb v.key w.key then v ∷ w ∷ vars else w ∷ rest

-- `ORDER BY key`
abbrev pub sort_by_key : List AppEnvVar → List AppEnvVar
sort_by_key [] = []
sort_by_key (v ∷ vars) = insert_by_key v (sort_by_key vars)

-- The old value, before it is replaced
abbrev pub recorded_old : AppEnvVar → ℕ → ℕ → AppEnvVarHistory
recorded_old old id now = record {
  id = id;
  app_id = old.app_id;
  key = old.key;
  value = old.value;
  is_secret = old.is_secret;
  changed_at = now;
  changed_by = "system";
}

abbrev pub replaced_var : AppEnvVar → AppEnvVar → AppEnvVar
replaced_var v row = record row { value = v.value; is_secret = v.is_secret; required = v.required }

-- The struct keeps an id that it has.
abbrev pub with_id : AppEnvVar → ℕ → AppEnvVar
with_id v id = if v.id == 0 then record v { id = id } else v

module _ (sqlite : Sqlite) where
  -- ON CONFLICT(app_id, key) DO UPDATE, when the row `old` is there
  unfoldable pub replace_var : AppEnvVar → AppEnvVar → Database → AppEnvVar × Database
  replace_var v old db =
      let id = suc db.last_history_id in
      let db' = record db {
        env_vars = update_where (is_var v.app_id v.key) (replaced_var v) db.env_vars;
        env_var_history = db.env_var_history ++ (recorded_old old id db.clock ∷ []);
        last_history_id = id;
      } in
      (with_id v (sqlite.last_rowid db'), db')

  unfoldable pub set_found : AppEnvVar → Option AppEnvVar → Action Database (Result AppEnvVar)
  unfolding replace_var
  set_found v (some old) db = let (v', db') = replace_var v old db in (ok v', db')
  set_found v none db =
      let id = suc db.last_env_var_id in
      if app_exists v.app_id db.apps
      then (
        ok (with_id v id),
        record db { env_vars = db.env_vars ++ (record v { id = id } ∷ []); last_env_var_id = id },
      )
      else (err (wrap "set env var" sqlite.constraint_failed), db)

  -- The struct with its id, as the caller has it afterwards
  unfoldable pub set_app_env_var : AppEnvVar → Action Database (Result AppEnvVar)
  unfolding set_found
  set_app_env_var v db = set_found v (find_var v.app_id v.key db.env_vars) db

  unfoldable pub get_app_env_vars : ℕ → Action Database (Result (List AppEnvVar))
  get_app_env_vars app_id db =
      (ok (sort_by_key (where_rows (λ v. v.app_id == app_id) db.env_vars)), db)

  unfoldable pub get_app_env_var_history :
      ℕ → String → Action Database (Result (List AppEnvVarHistory))
  get_app_env_var_history app_id key db = (
    ok (
        sqlite.descending (λ h. h.changed_at)
          (where_rows (λ h. h.app_id == app_id && h.key == key) db.env_var_history)),
    db,
  )

  -- The map, as its entries
  unfoldable pub get_app_env_vars_snapshot : ℕ → Action Database (Result (List (String × String)))
  get_app_env_vars_snapshot app_id db =
      (ok (map (λ v. (v.key, v.value)) (where_rows (λ v. v.app_id == app_id) db.env_vars)), db)

  unfoldable pub delete_app_env_var : ℕ → String → Action Database (Option Error)
  delete_app_env_var app_id key db =
      (none, record db { env_vars = where_rows (λ v. not (is_var app_id key v)) db.env_vars })
