-- ===== src/Handlers/Services.antt =====
-- internal/server/handlers/service.go: the API of the services. A request's path and body come
-- decoded: `none` where the decoding fails.
use project_talos.Prelude.{
  ℕ, String, Bool, false, Option, none, some, List, [], ◌∷◌, map, ◌==◌, string_eq, if◌then◌else◌,
}
use project_talos.Domain.{Error, Result, ok, err}
use project_talos.Domain.Service.{
  Service, ServiceType, ServiceStatus, postgres, mysql, redis, garage, garage_webui, other,
  AppService, AppEnvVar, AppEnvVarHistory, Credentials, of_postgres, of_mysql, of_redis, of_garage,
  of_garage_webui,
}
use project_talos.Action.{Action, pure, ◌>>=◌}
use project_talos.Services.{Platform, GarageBucket}
use project_talos.Services.Provision.{Outcome}

-- What `writeJSON` writes of a service, of a variable and of its history: not the fields that are
-- tagged `json:"-"`, the credentials and the values
pub record ServiceJson : Type 0 where
  pub id : ℕ
  pub name : String
  pub type : ServiceType
  pub image_ref : String
  pub status : ServiceStatus
  pub container_id : String
  pub app_id : Option ℕ
  pub volume_path : String
  pub config : String
  pub internal_port : ℕ
  pub created_at : ℕ
  pub updated_at : ℕ

pub record EnvVarJson : Type 0 where
  pub id : ℕ
  pub app_id : ℕ
  pub key : String
  pub is_secret : Bool
  pub required : Bool

pub record EnvVarHistoryJson : Type 0 where
  pub id : ℕ
  pub app_id : ℕ
  pub key : String
  pub is_secret : Bool
  pub changed_at : ℕ
  pub changed_by : String

abbrev pub service_json : Service → ServiceJson
service_json svc = record {
  id = svc.id;
  name = svc.name;
  type = svc.type;
  image_ref = svc.image_ref;
  status = svc.status;
  container_id = svc.container_id;
  app_id = svc.app_id;
  volume_path = svc.volume_path;
  config = svc.config;
  internal_port = svc.internal_port;
  created_at = svc.created_at;
  updated_at = svc.updated_at;
}

abbrev pub env_var_json : AppEnvVar → EnvVarJson
env_var_json v = record {
  id = v.id;
  app_id = v.app_id;
  key = v.key;
  is_secret = v.is_secret;
  required = v.required;
}

abbrev pub history_json : AppEnvVarHistory → EnvVarHistoryJson
history_json h = record {
  id = h.id;
  app_id = h.app_id;
  key = h.key;
  is_secret = h.is_secret;
  changed_at = h.changed_at;
  changed_by = h.changed_by;
}

-- The status, and what the body shows
pub data Reply : Type 0 where
  failure : ℕ → String → Reply
  internal_error : Error → Reply
  -- 502, with the text before the error's
  bad_gateway : String → Error → Reply
  done : ℕ → Reply
  service_reply : ℕ → ServiceJson → Reply
  services_reply : List ServiceJson → Reply
  credentials_reply : Credentials → Reply
  buckets_reply : List GarageBucket → Reply
  bucket_reply : ℕ → GarageBucket → Reply
  links_reply : List AppService → Reply
  vars_reply : List EnvVarJson → Reply
  var_reply : EnvVarJson → Reply
  value_reply : String → String → Reply
  history_reply : List EnvVarHistoryJson → Reply
  panicked : Reply

pub record CreateServiceRequest : Type 0 where
  pub name : String
  pub type : ServiceType
  -- the strings of the map; none for a missing map
  pub creds : Option (String → Option String)

-- The rest of `store.ServiceStore`, and of the Garage client
pub record ServiceStore (W : Type 0) : Type 0 where
  pub list_services : Action W (Result (List Service))
  pub link_app_service : ℕ → ℕ → String → Action W (Option Error)
  pub unlink_app_service : ℕ → ℕ → Action W (Option Error)
  pub list_app_services : ℕ → Action W (Result (List AppService))
  pub get_app_env_vars : ℕ → Action W (Result (List AppEnvVar))
  pub set_app_env_var : AppEnvVar → Action W (Result AppEnvVar)
  pub delete_app_env_var : ℕ → String → Action W (Option Error)
  pub get_app_env_var_history : ℕ → String → Action W (Result (List AppEnvVarHistory))
  pub list_buckets : String → String → Action W (Result (List GarageBucket))
  pub delete_bucket : String → String → String → Action W (Option Error)
  -- `errors.Is`: the text of the error has "UNIQUE constraint failed"
  pub is_unique_error : Error → Bool

abbrev pub hidden : Service → Service
hidden svc = record svc { credentials = "" }

-- What a goroutine that the handler starts provisions
pub record Job : Type 0 where
  pub service : Service
  pub creds : Credentials

abbrev pub value_or : String → Option String → String
value_or fallback none = fallback
value_or fallback (some v) = if v == "" then fallback else v

abbrev pub text_or : String → Option String → String
text_or fallback none = fallback
text_or fallback (some v) = v

abbrev pub masked : AppEnvVar → AppEnvVar
masked v = if v.is_secret then record v { value = "****" } else v

unfoldable pub find_value : String → List AppEnvVar → Reply
find_value key [] = failure 404 "env var not found"
find_value key (v ∷ vars) =
    let rest = find_value key vars in if v.key == key then value_reply v.key v.value else rest

abbrev pub reply_done : ℕ → Option Error → Reply
reply_done status none = done status
reply_done status (some e) = internal_error e

-- `nil` where there is no such list
abbrev pub shown_services : Result (List Service) → Reply
shown_services (err e) = internal_error e
shown_services (ok svcs) = services_reply (map (λ svc. service_json (hidden svc)) svcs)

abbrev pub shown_service : Result Service → Reply
shown_service (err _) = failure 404 "service not found"
shown_service (ok svc) = service_reply 200 (service_json (hidden svc))

abbrev pub shown_vars : Result (List AppEnvVar) → Reply
shown_vars (err e) = internal_error e
shown_vars (ok vars) = vars_reply (map (λ v. env_var_json (masked v)) vars)

abbrev revealed : String → Result (List AppEnvVar) → Reply
revealed key (err _) = failure 500 "failed to get env vars"
revealed key (ok vars) = find_value key vars

abbrev shown_var : Result AppEnvVar → Reply
shown_var (err e) = internal_error e
shown_var (ok v) = var_reply (env_var_json v)

abbrev shown_history : Result (List AppEnvVarHistory) → Reply
shown_history (err _) = failure 500 "failed to get history"
shown_history (ok history) = history_reply (map history_json history)

abbrev shown_links : Result (List AppService) → Reply
shown_links (err e) = internal_error e
shown_links (ok links) = links_reply links

abbrev pub shown_outcome : Outcome → Reply
shown_outcome (svc, none) = service_reply 200 (service_json (hidden svc))
shown_outcome (svc, some e) = internal_error e

-- `GetCredentials`, by the type
abbrev pub shown_credentials : {W : Type 0} → Platform W → ServiceType → Result String → Reply
shown_credentials platform (other _) _ = failure 400 "unknown service type"
shown_credentials platform _ (err _) = failure 500 "decrypt failed"
shown_credentials platform postgres (ok json) =
    credentials_reply (of_postgres (platform.unmarshal_postgres json))
shown_credentials platform mysql (ok json) =
    credentials_reply (of_mysql (platform.unmarshal_mysql json))
shown_credentials platform redis (ok json) =
    credentials_reply (of_redis (platform.unmarshal_redis json))
shown_credentials platform garage (ok json) =
    credentials_reply (of_garage (platform.unmarshal_garage json))
shown_credentials platform garage_webui (ok json) =
    credentials_reply (of_garage_webui (platform.unmarshal_garage_webui json))

module _ {W : Type 0} (platform : Platform W) (store : ServiceStore W) where
  unfoldable pub list_all : Action W Reply
  list_all = do r ← store.list_services; pure (shown_services r)

  unfoldable pub get : Option ℕ → Action W Reply
  get none = pure (failure 400 "invalid service id")
  get (some id) = do r ← platform.get_service id; pure (shown_service r)

  unfoldable pub link : Option ℕ → Option (ℕ × String) → Action W Reply
  link none _ = pure (failure 400 "invalid app id")
  link (some app_id) none = pure (failure 400 "invalid request body")
  link (some app_id) (some (service_id, alias)) =
      if alias == ""
      then pure (failure 400 "alias is required")
      else do r ← store.link_app_service app_id service_id alias; pure (reply_done 201 r)

  unfoldable pub unlink : Option ℕ → Option ℕ → Action W Reply
  unlink none _ = pure (failure 400 "invalid app id")
  unlink (some app_id) none = pure (failure 400 "invalid service id")
  unlink (some app_id) (some service_id) = do
    r ← store.unlink_app_service app_id service_id
    pure (reply_done 204 r)

  unfoldable pub list_links : Option ℕ → Action W Reply
  list_links none = pure (failure 400 "invalid app id")
  list_links (some app_id) = do r ← store.list_app_services app_id; pure (shown_links r)

  unfoldable pub list_env_vars : Option ℕ → Action W Reply
  list_env_vars none = pure (failure 400 "invalid app id")
  list_env_vars (some app_id) = do r ← store.get_app_env_vars app_id; pure (shown_vars r)

  -- The body is the key, the value and whether it is secret; `required` is not in it.
  unfoldable pub set_env_var : Option ℕ → Option (String × String × Bool) → Action W Reply
  set_env_var none _ = pure (failure 400 "invalid app id")
  set_env_var (some app_id) none = pure (failure 400 "invalid request body")
  set_env_var (some app_id) (some (key, value, is_secret)) =
      if key == "" then pure (failure 400 "key is required") else do
        r ← store.set_app_env_var (record {
          id = 0;
          app_id = app_id;
          key = key;
          value = value;
          is_secret = is_secret;
          required = false;
        })
        pure (shown_var r)

  unfoldable pub delete_env_var : Option ℕ → String → Action W Reply
  delete_env_var none key = pure (failure 400 "invalid app id")
  delete_env_var (some app_id) key = do
    r ← store.delete_app_env_var app_id key
    pure (reply_done 204 r)

  unfoldable pub list_env_var_history : Option ℕ → String → Action W Reply
  list_env_var_history none key = pure (failure 400 "invalid app id")
  list_env_var_history (some app_id) key =
      if key == ""
      then pure (failure 400 "key is required")
      else do r ← store.get_app_env_var_history app_id key; pure (shown_history r)

  unfoldable pub reveal_env_var : Option ℕ → String → Action W Reply
  reveal_env_var none key = pure (failure 400 "invalid app id")
  reveal_env_var (some app_id) key =
      if key == ""
      then pure (failure 400 "key is required")
      else do r ← store.get_app_env_vars app_id; pure (revealed key r)
