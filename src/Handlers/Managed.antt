-- ===== src/Handlers/Managed.antt =====
-- internal/server/handlers/service.go: the requests that go to the provisioner and to Garage.
use project_talos.Prelude.{ℕ, String, ◌<>◌, Option, none, some, ◌==◌, string_eq, if◌then◌else◌}
use project_talos.Domain.{Result, ok, err}
use project_talos.Domain.Service.{
  Service, ServiceType, postgres, mysql, redis, garage, garage_webui, other, pending,
  ServiceDefinition, service_definition, Credentials, of_postgres, of_mysql, of_redis, of_garage,
  of_garage_webui, GarageCredentials,
}
use project_talos.Action.{Action, pure, ◌>>=◌, ◌>>◌}
use project_talos.Services.{Platform, Provisioner}
use project_talos.Services.Container.{is_garage}
use project_talos.Services.Generators.{
  Random, generate_password, generate_access_key, generate_service_name, default_credentials,
}
use project_talos.Services.Provision.{
  provision_service, stop_service, start_service, delete_provisioned,
}
use project_talos.Handlers.Services.{
  Reply, failure, internal_error, service_reply, panicked, CreateServiceRequest, ServiceStore,
  hidden, service_json, Job, value_or, text_or, reply_done, shown_outcome, shown_credentials,
}

abbrev pub Fields : Type 0
Fields = String → Option String

-- The credentials of a request's fields, with the passwords that were drawn; `none` is a panic.
unfoldable pub sql_creds :
    (String → String → String → Credentials) → String → Fields → Option String → Option Credentials
sql_creds make user m none = none
sql_creds make user m (some drawn) = some (
    make (value_or "app" (m "database")) (value_or user (m "user")) (value_or drawn (m "password")))

redis_creds : String → Fields → Option String → Option Credentials
redis_creds host m none = none
redis_creds host m (some drawn) =
    some (of_redis (record { host = host; port = 6379; password = value_or drawn (m "password") }))

webui_creds : String → Fields → Option String → Option Credentials
webui_creds host m none = none
webui_creds host m (some drawn) = some (
    of_garage_webui (record {
      admin_api_url = "http://" <> host <> ":3903";
      s3_endpoint = "http://" <> host <> ":3900";
      admin_key = "";
      username = value_or "admin" (m "username");
      password = value_or drawn (m "password");
    }))

garage_creds :
    String → Fields → String → Option String → Option String → Option String → Option Credentials
garage_creds host m secret (some key) (some secret_key) (some token) = some (
    of_garage (record {
      endpoint = "http://" <> host <> ":3900";
      region = value_or "garage" (m "region");
      access_key = value_or key (m "access_key");
      secret_key = value_or secret_key (m "secret_key");
      bucket = text_or "" (m "bucket");
      admin_token = token;
      rpc_secret = secret;
    }))
garage_creds host m secret _ _ _ = none

-- A new row for a service; the sidecar of a Garage service is one too.
unfoldable pub new_service : ServiceDefinition → String → ServiceType → Service
new_service def name type = record {
  id = 0;
  name = name;
  type = type;
  image_ref = def.default_image;
  status = pending;
  container_id = "";
  app_id = none;
  volume_path = "";
  credentials = "";
  config = "";
  internal_port = def.port;
  created_at = 0;
  updated_at = 0;
}

module _ {W : Type 0} (platform : Platform W) (p : Provisioner) (random : Random W)
    (store : ServiceStore W) where
  -- `buildCredsFromMap`
  unfoldable pub build_creds_from_map :
      ServiceType → Fields → String → Action W (Option Credentials)
  unfolding sql_creds redis_creds webui_creds garage_creds
  build_creds_from_map postgres m host = do
    drawn ← generate_password random 24
    pure (
        sql_creds
          (λ database user password. of_postgres (record {
            host = host;
            port = 5432;
            database = database;
            user = user;
            password = password;
          }))
          "postgres" m drawn)
  build_creds_from_map mysql m host = do
    drawn ← generate_password random 24
    pure (
        sql_creds
          (λ database user password. of_mysql (record {
            host = host;
            port = 3306;
            database = database;
            user = user;
            password = password;
          }))
          "mysql" m drawn)
  build_creds_from_map redis m host = do
    drawn ← generate_password random 24
    pure (redis_creds host m drawn)
  build_creds_from_map garage m host = do
    secret ← random.hex_bytes 32
    key ← generate_access_key random 20
    secret_key ← generate_password random 40
    token ← generate_password random 32
    pure (garage_creds host m secret key secret_key token)
  build_creds_from_map garage_webui m host = do
    drawn ← generate_password random 16
    pure (webui_creds host m drawn)
  build_creds_from_map (other _) m host = pure none

  unfoldable pub creds_of_request :
      ServiceType → Option Fields → String → Action W (Option Credentials)
  unfolding build_creds_from_map
  creds_of_request type none host = default_credentials random type host
  creds_of_request type (some m) host = build_creds_from_map type m host

  unfoldable pub service_created : Credentials → Result Service → Action W (Reply × Option Job)
  service_created creds (err e) = pure (
    if store.is_unique_error e
        then failure 409 "A service with this name already exists"
        else internal_error e,
    none,
  )
  service_created creds (ok svc) = pure (
    service_reply 202 (service_json (hidden svc)),
    some (record { service = svc; creds = creds }),
  )

  -- Without credentials a generator has panicked.
  unfoldable pub with_drawn : Service → Option Credentials → Action W (Reply × Option Job)
  unfolding service_created
  with_drawn svc none = pure (panicked, none)
  with_drawn svc (some creds) = do r ← platform.create_service svc; service_created creds r

  unfoldable pub create_named :
      ServiceDefinition → CreateServiceRequest → Option String → Action W (Reply × Option Job)
  unfolding creds_of_request with_drawn
  create_named def req none = pure (panicked, none)
  create_named def req (some name) = do
    creds ← creds_of_request req.type req.creds ("talos-svc-" <> name)
    with_drawn (new_service def name req.type) creds

  unfoldable pub create_defined :
      Option ServiceDefinition → CreateServiceRequest → Action W (Reply × Option Job)
  unfolding create_named
  create_defined none req = pure (failure 400 "unsupported service type", none)
  create_defined (some def) req = do
    name ← if req.name == "" then generate_service_name random req.type else pure (some req.name)
    create_named def req name

  -- `Create`: the response, and the job of the goroutine that it starts
  unfoldable pub create_service : Option CreateServiceRequest → Action W (Reply × Option Job)
  unfolding create_defined
  create_service none = pure (failure 400 "invalid request body", none)
  create_service (some req) = create_defined (service_definition req.type) req

  unfoldable pub webui_created : Credentials → Result Service → Action W (Unit {0})
  webui_created creds (err e) = pure tt
  webui_created creds (ok svc) = do provision_service platform p svc creds; pure tt

  unfoldable pub webui_drawn :
      ServiceDefinition → Service → GarageCredentials → Option String → Action W (Unit {0})
  unfolding webui_created
  webui_drawn def svc c none = pure tt
  webui_drawn def svc c (some password) = do
    r ← platform.create_service (new_service def (svc.name <> "-webui") garage_webui)
    webui_created
        (of_garage_webui (record {
          admin_api_url = "http://talos-svc-" <> svc.name <> ":3903";
          s3_endpoint = "http://talos-svc-" <> svc.name <> ":3900";
          admin_key = c.admin_token;
          username = "admin";
          password = password;
        }))
        r

  unfoldable pub add_webui : Service → Credentials → Option ServiceDefinition → Action W (Unit {0})
  unfolding webui_drawn
  add_webui svc (of_garage c) (some def) = do
    password ← generate_password random 16
    webui_drawn def svc c password
  add_webui svc _ _ = pure tt

  -- The goroutine of `Create`
  unfoldable pub run_job : Job → Action W (Unit {0})
  unfolding add_webui
  run_job job = do
    provision_service platform p job.service job.creds
    if is_garage job.service.type
        then add_webui job.service job.creds (service_definition garage_webui)
        else pure tt

  unfoldable pub delete_service : Option ℕ → Action W Reply
  delete_service none = pure (failure 400 "invalid service id")
  delete_service (some id) = do r ← delete_provisioned platform p id; pure (reply_done 204 r)

  unfoldable pub stop_found : Result Service → Action W Reply
  stop_found (err _) = pure (failure 404 "service not found")
  stop_found (ok svc) = do r ← stop_service platform p svc; pure (shown_outcome r)

  unfoldable pub stop : Option ℕ → Action W Reply
  unfolding stop_found
  stop none = pure (failure 400 "invalid service id")
  stop (some id) = do r ← platform.get_service id; stop_found r

  unfoldable pub start_found : Result Service → Action W Reply
  start_found (err _) = pure (failure 404 "service not found")
  start_found (ok svc) = do r ← start_service platform p svc; pure (shown_outcome r)

  unfoldable pub start : Option ℕ → Action W Reply
  unfolding start_found
  start none = pure (failure 400 "invalid service id")
  start (some id) = do r ← platform.get_service id; start_found r

  unfoldable pub credentials_found : Result Service → Reply
  credentials_found (err _) = failure 404 "service not found"
  credentials_found (ok svc) =
      shown_credentials platform svc.type (platform.decrypt svc.credentials)

  unfoldable pub get_credentials : Option ℕ → Action W Reply
  unfolding credentials_found
  get_credentials none = pure (failure 400 "invalid service id")
  get_credentials (some id) = do r ← platform.get_service id; pure (credentials_found r)
