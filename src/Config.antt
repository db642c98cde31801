-- ===== src/Config.antt =====
-- internal/config/config.go: the configuration from the environment's variables, of which a missing
-- one is an empty text. A panic is `none`. Numbers have a sign, as `strconv` gives them.
pub mod Saved
use Prim.Native.Char.{code}
use project_talos.Prelude.{
  ℕ, ◌-◌, ◌^◌, ◌*◌, ◌+◌, String, Bool, true, false, ◌||◌, ◌&&◌, Option, none, some, ◌==◌, string_eq,
  nat_eq, if◌then◌else◌, ltb, leb, ◌≡◌, refl,
}
use project_talos.Proxy.{ProxyMode, internal, external}

pub data Number : Type 0 where
  plus minus : ℕ → Number

pub record ServerConfig : Type 0 where
  pub host : String
  pub port : Number
  pub domain : String
  pub acme_email : String
  pub proxy_mode : ProxyMode
  pub edge_provider : String
  pub edge_network : String
  pub edge_cert_resolver : String
  pub edge_entrypoint : String

pub record DockerConfig : Type 0 where
  pub host : String
  pub network : String
  pub host_data_root : String

pub record TraefikConfig : Type 0 where
  pub image : String
  pub dashboard_on : Bool
  pub config_dir : String
  pub data_dir : String
  pub host_data_root : String

pub record GitHubConfig : Type 0 where
  pub webhook_secret : String
  pub app_id : Number
  pub app_slug : String
  pub private_key : String
  pub client_id : String
  pub client_secret : String

pub record BackupConfig : Type 0 where
  pub dir : String
  pub interval_minutes : Number
  pub retain_count : Number

pub record Config : Type 0 where
  pub server : ServerConfig
  pub database_path : String
  pub session_secret : String
  pub session_max_age : Number
  pub docker : DockerConfig
  pub traefik : TraefikConfig
  pub github : GitHubConfig
  pub backup : BackupConfig
  pub encryption_key : String

-- The value of a text of digits, none if it has another character
digits_from : ℕ → String → Option ℕ
digits_from acc String.[] = some acc
digits_from acc (String.◌∷◌ c s) =
    let rest = digits_from (acc * 10 + (code c - 48)) s in
    if leb 48 (code c) && leb (code c) 57 then rest else none

magnitude : String → Option ℕ
unfolding digits_from
magnitude s = if s == "" then none else digits_from 0 s

within : ℕ → (ℕ → Number) → Option ℕ → Option Number
within limit make none = none
within limit make (some n) = if ltb n limit then some (make n) else none

-- `strconv.Atoi` and `ParseInt(s, 10, 64)`, none for an error
unfoldable pub parse_int : String → Option Number
unfolding magnitude within
parse_int String.[] = none
parse_int (String.◌∷◌ c s) =
    if code c == b'-'
    then within (2 ^ 63 + 1) minus (magnitude s)
    else if code c == b'+'
    then within (2 ^ 63) plus (magnitude s)
    else within (2 ^ 63) plus (magnitude (String.◌∷◌ c s))

-- `strconv.ParseBool`
unfoldable pub parse_bool : String → Option Bool
parse_bool s =
    if s == "1" || s == "t" || s == "T" || s == "true" || s == "TRUE" || s == "True"
    then some true
    else if s == "0" || s == "f" || s == "F" || s == "false" || s == "FALSE" || s == "False"
    then some false
    else none

or_fallback {ℓ} : {A : Type ℓ} → A → Option A → A
or_fallback fallback none = fallback
or_fallback fallback (some a) = a

module _ (getenv : String → String) where
  unfoldable pub must_env : String → Option String
  must_env key = if getenv key == "" then none else some (getenv key)

  unfoldable pub env_or_default : String → String → String
  env_or_default key fallback = if getenv key == "" then fallback else getenv key

  -- `intDefault` and `int64Default`
  unfoldable pub int_default : String → Number → Number
  unfolding parse_int or_fallback
  int_default key fallback =
      if getenv key == "" then fallback else or_fallback fallback (parse_int (getenv key))

  unfoldable pub bool_default : String → Bool → Bool
  unfolding parse_bool or_fallback
  bool_default key fallback =
      if getenv key == "" then fallback else or_fallback fallback (parse_bool (getenv key))

  mode_text : ProxyMode → String
  mode_text internal = "internal"
  mode_text external = "external"

  unfoldable pub proxy_mode_default : String → ProxyMode → ProxyMode
  unfolding env_or_default mode_text
  proxy_mode_default key fallback =
      let v = env_or_default key (mode_text fallback) in
      if v == "internal" then internal else if v == "external" then external else fallback

  unfoldable pub edge_provider_default : String → String → String
  unfolding env_or_default
  edge_provider_default key fallback =
      let v = env_or_default key fallback in if v == "traefik" then v else fallback

  unfoldable pub server_config : ServerConfig
  unfolding env_or_default int_default proxy_mode_default edge_provider_default
  server_config = record {
    host = env_or_default "TALOS_HOST" "0.0.0.0";
    port = int_default "TALOS_PORT" (plus 3000);
    domain = env_or_default "TALOS_DOMAIN" "";
    acme_email = env_or_default "TALOS_ACME_EMAIL" "";
    proxy_mode = proxy_mode_default "TALOS_PROXY_MODE" internal;
    edge_provider = edge_provider_default "TALOS_EDGE_PROVIDER" "traefik";
    edge_network = env_or_default "TALOS_EDGE_NETWORK" "traefik-public";
    edge_cert_resolver = env_or_default "TALOS_EDGE_CERT_RESOLVER" "letsencrypt";
    edge_entrypoint = env_or_default "TALOS_EDGE_ENTRYPOINT" "websecure";
  }

  config_with : String → Config
  unfolding server_config env_or_default int_default bool_default
  config_with secret = record {
    server = server_config;
    database_path = env_or_default "TALOS_DB_PATH" "data/talos.db";
    session_secret = secret;
    session_max_age = int_default "TALOS_SESSION_MAX_AGE" (plus (86400 * 7));
    docker = record {
      host = env_or_default "TALOS_DOCKER_HOST" "unix:///var/run/docker.sock";
      network = env_or_default "TALOS_DOCKER_NETWORK" "talos";
      host_data_root = env_or_default "TALOS_HOST_DATA_ROOT" "";
    };
    traefik = record {
      image = env_or_default "TALOS_TRAEFIK_IMAGE" "traefik:v3.0";
      dashboard_on = bool_default "TALOS_TRAEFIK_DASHBOARD" false;
      config_dir = env_or_default "TALOS_TRAEFIK_CONFIG_DIR" "data/traefik/config";
      data_dir = env_or_default "TALOS_TRAEFIK_DATA_DIR" "data/traefik/data";
      host_data_root = env_or_default "TALOS_HOST_DATA_ROOT" "";
    };
    github = record {
      webhook_secret = env_or_default "TALOS_GITHUB_WEBHOOK_SECRET" "";
      app_id = int_default "TALOS_GITHUB_APP_ID" (plus 0);
      app_slug = env_or_default "TALOS_GITHUB_APP_SLUG" "";
      private_key = env_or_default "TALOS_GITHUB_APP_PRIVATE_KEY" "";
      client_id = env_or_default "TALOS_GITHUB_APP_CLIENT_ID" "";
      client_secret = env_or_default "TALOS_GITHUB_APP_CLIENT_SECRET" "";
    };
    backup = record {
      dir = env_or_default "TALOS_BACKUP_DIR" "data/backups";
      interval_minutes = int_default "TALOS_BACKUP_INTERVAL_MINUTES" (plus 0);
      retain_count = int_default "TALOS_BACKUP_RETAIN_COUNT" (plus 10);
    };
    encryption_key = env_or_default "TALOS_ENCRYPTION_KEY" "";
  }

  loaded : Option String → Option Config
  unfolding config_with
  loaded none = none
  loaded (some secret) = some (config_with secret)

  unfoldable pub load_config : Option Config
  unfolding loaded must_env
  load_config = loaded (must_env "TALOS_SESSION_SECRET")

parse_int_test : parse_int "-15" ≡ some (minus 15)
unfolding parse_int
parse_int_test = refl
