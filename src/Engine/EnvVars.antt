-- ===== src/Engine/EnvVars.antt =====
-- The environment of a container: `collectEnvVars` and `validateEnvVars` of
-- internal/deploy/engine.go, and `FormatEnvVars` of internal/services/provisioner.go.
use project_talos.Prelude.{
  String, ◌<>◌, Bool, true, false, ◌&&◌, Option, none, some, List, [], ◌∷◌, ◌++◌, map, show, join,
  is_empty, ◌==◌, string_eq, if◌then◌else◌,
}
use project_talos.Domain.{App, Error, message, Result, ok, err}
use project_talos.Domain.Service.{
  Service, ServiceType, postgres, mysql, redis, garage, ServiceStatus, active, AppService,
  AppEnvVar, Credentials, of_postgres, of_mysql, of_redis, of_garage, of_garage_webui,
}
use project_talos.Action.{Action, pure, ◌>>=◌}
use project_talos.Engine.Interface.{Environment}

-- `validateEnvVars`: the keys of the required variables that have no value.
unfoldable pub missing_keys : List AppEnvVar → List String
missing_keys [] = []
missing_keys (v ∷ vars) =
    let rest = missing_keys vars in if v.required && v.value == "" then v.key ∷ rest else rest

abbrev pub missing_error : List AppEnvVar → Option Error
missing_error vars =
    if is_empty (missing_keys vars)
    then none
    else some (message ("missing required env vars: " <> join ", " (missing_keys vars)))

abbrev is_active : ServiceStatus → Bool
is_active active = true
is_active _ = false

abbrev map_result : {A B : Type 0} → (A → B) → Result A → Result B
map_result f (ok a) = ok (f a)
map_result f (err e) = err e

module _ {W : Type 0} (env : Environment W) where
  open env use {
    get_app_env_vars, list_app_services, get_service, decrypt_postgres, decrypt_mysql,
    decrypt_redis, decrypt_garage, conn_url, to_upper,
  }

  unfoldable pub validate_env_vars : App → Action W (Option Error)
  validate_env_vars app = do
    r ← get_app_env_vars app.id
    pure (elim r [ err _ ↦ none | ok vars ↦ missing_error vars ])

  -- `FormatEnvVars`
  unfoldable pub format_env_vars : Credentials → String → List String
  format_env_vars (of_postgres c) alias =
      let prefix = to_upper alias in
      (prefix
        <> "_URL="
        <> conn_url "postgres" c.user c.password (c.host <> ":" <> show c.port) ("/" <> c.database))
      ∷ (prefix <> "_HOST=" <> c.host)
      ∷ (prefix <> "_PORT=" <> show c.port)
      ∷ (prefix <> "_USER=" <> c.user)
      ∷ (prefix <> "_PASSWORD=" <> c.password)
      ∷ (prefix <> "_NAME=" <> c.database)
      ∷ []
  format_env_vars (of_mysql c) alias =
      let prefix = to_upper alias in
      (prefix
        <> "_URL="
        <> conn_url "mysql" c.user c.password (c.host <> ":" <> show c.port) ("/" <> c.database))
      ∷ (prefix <> "_HOST=" <> c.host)
      ∷ (prefix <> "_PORT=" <> show c.port)
      ∷ (prefix <> "_USER=" <> c.user)
      ∷ (prefix <> "_PASSWORD=" <> c.password)
      ∷ (prefix <> "_NAME=" <> c.database)
      ∷ []
  format_env_vars (of_redis c) alias =
      let prefix = to_upper alias in
      (prefix <> "_URL=" <> conn_url "redis" "" c.password (c.host <> ":" <> show c.port) "")
      ∷ (prefix <> "_HOST=" <> c.host)
      ∷ (prefix <> "_PORT=" <> show c.port)
      ∷ (prefix <> "_PASSWORD=" <> c.password)
      ∷ []
  format_env_vars (of_garage c) alias =
      let prefix = to_upper alias in
      (prefix <> "_ENDPOINT=" <> c.endpoint)
      ∷ (prefix <> "_REGION=" <> c.region)
      ∷ (prefix <> "_ACCESS_KEY=" <> c.access_key)
      ∷ (prefix <> "_SECRET_KEY=" <> c.secret_key)
      ∷ (prefix <> "_BUCKET=" <> c.bucket)
      ∷ (prefix <> "_ADMIN_TOKEN=" <> c.admin_token)
      ∷ []
  format_env_vars (of_garage_webui c) alias =
      let prefix = to_upper alias in
      (prefix <> "_ADMIN_API_URL=" <> c.admin_api_url)
      ∷ (prefix <> "_S3_ENDPOINT=" <> c.s3_endpoint)
      ∷ (prefix <> "_USERNAME=" <> c.username)
      ∷ (prefix <> "_PASSWORD=" <> c.password)
      ∷ []

  -- The `switch svc.Type`; `none` is its `default`.
  credentials_of : Service → ServiceType → Option (Result Credentials)
  credentials_of svc postgres = some (map_result of_postgres (decrypt_postgres svc))
  credentials_of svc mysql = some (map_result of_mysql (decrypt_mysql svc))
  credentials_of svc redis = some (map_result of_redis (decrypt_redis svc))
  credentials_of svc garage = some (map_result of_garage (decrypt_garage svc))
  credentials_of svc _ = none

  -- What one link adds; every `continue` adds nothing.
  unfoldable pub link_env_vars : AppService → Result Service → List String
  unfolding credentials_of
  link_env_vars link (err _) = []
  link_env_vars link (ok svc) =
      if is_active svc.status
      then elim (credentials_of svc svc.type) [
        | none ↦ []
        | some r ↦ elim r [ err _ ↦ [] | ok creds ↦ format_env_vars creds link.alias ]
      ]
      else []

  unfoldable pub collect_links : List AppService → List String → Action W (List String)
  collect_links [] acc = pure acc
  collect_links (link ∷ links) acc = do
    r ← get_service link.service_id
    collect_links links (acc ++ link_env_vars link r)

  unfoldable pub links_or_none : Result (List AppService) → Action W (List String)
  links_or_none (err _) = pure []
  links_or_none (ok links) = collect_links links []

  abbrev assignments : List AppEnvVar → List String
  assignments = map (λ v. v.key <> "=" <> v.value)

  unfoldable pub collect_env_vars : App → Action W (List String)
  unfolding collect_links links_or_none
  collect_env_vars app = do
    links ← list_app_services app.id
    linked ← links_or_none links
    r ← get_app_env_vars app.id
    pure (elim r [ err _ ↦ linked | ok vars ↦ linked ++ assignments vars ])
