-- ===== src/Examples/Services.antt =====
-- A PostgreSQL service on a Docker host whose world is the list of its running containers, and an
-- encryption that puts a mark before the text.
use Prim.Native.Char.{char}
use project_talos.Prelude.{
  ◌≢◌, String, ◌<>◌, ◌≡◌, refl, true, false, none, some, List, [], ◌∷◌, where_rows, not, rel,
  join_path, ◌==◌, string_eq, arith,
}
use project_talos.Domain.{not_found, Result, ok, err}
use project_talos.Domain.Service.{
  Service, service_definition, postgres, pending, active, Credentials, of_postgres,
  PostgresCredentials, MysqlCredentials, GarageCredentials, GarageWebuiCredentials,
}
use project_talos.Services.{ServiceContainer, Platform, Provisioner}
use project_talos.Services.Container.{build_container_config, type_text}
use project_talos.Services.Provision.{vol_host, start_service, stop_service, restarted}
use project_talos.Services.Readable.{Decrypts}
use project_talos.Services.Started.{IsStarted, start_repeats}
use project_talos.Services.Generators.{
  Random, generate, password_chars, IsDrawn, generated_in_range,
}

abbrev Host : Type 0
Host = List String

abbrev no_mysql : MysqlCredentials
no_mysql = record { host = ""; port = 0; database = ""; user = ""; password = "" }

abbrev no_garage : GarageCredentials
no_garage = record {
  endpoint = "";
  region = "";
  access_key = "";
  secret_key = "";
  bucket = "";
  admin_token = "";
  rpc_secret = "";
}

abbrev no_webui : GarageWebuiCredentials
no_webui = record {
  admin_api_url = "";
  s3_endpoint = "";
  admin_key = "";
  username = "";
  password = "";
}

-- The text of PostgreSQL's credentials is their password, the rest is the same for all.
abbrev of_password : String → PostgresCredentials
of_password text = record {
  host = "talos-svc-db";
  port = 5432;
  database = "app";
  user = "postgres";
  password = text;
}

abbrev password_of : Credentials → String
password_of (of_postgres c) = c.password
password_of _ = ""

abbrev opened : String → Result String
opened String.[] = err not_found
opened (String.◌∷◌ c text) = ok text

-- Nothing that is asked changes the world.
abbrev pub idle : (W : Type 0) → Platform W
idle W = record {
  create_service = λ svc w. (ok svc, w);
  get_service = λ id w. (err not_found, w);
  update_service = λ svc w. (none, w);
  delete_service = λ id w. (none, w);
  encrypt = λ text w. (ok (String.◌∷◌ (char 33 tt) text), w);
  decrypt = opened;
  marshal = password_of;
  unmarshal_postgres = of_password;
  unmarshal_mysql = λ text. no_mysql;
  unmarshal_redis = λ text. record { host = ""; port = 0; password = "" };
  unmarshal_garage = λ text. no_garage;
  unmarshal_garage_webui = λ text. no_webui;
  working_dir = "/";
  mkdir_all = λ path w. (none, w);
  is_dir = λ path w. (false, w);
  remove_all = λ path w. (tt, w);
  write_file = λ path text w. (none, w);
  pull_image = λ image w. (none, w);
  stop_and_remove = λ name w. (none, w);
  start_container = λ config w. (ok ("id-" <> config.name), w);
  inspect_addresses = λ name w. (ok [], w);
  can_dial = λ address w. (true, w);
  wait_for_ready = λ url token w. (none, w);
  is_cluster_configured = λ url token w. (ok true, w);
  configure_single_node_layout = λ url token w. (none, w);
  create_bucket = λ url token name w. (err not_found, w);
}

abbrev pub docker : Platform Host
docker = record (idle Host) {
  stop_and_remove = λ name w. (none, where_rows (λ x. not (x == name)) w);
  start_container = λ config w. (ok ("id-" <> config.name), config.name ∷ w);
}

abbrev pub provisioner : Provisioner
provisioner = record { data_dir = "/data"; host_data_root = "/srv/talos" }

abbrev pub random : Random Host
random = record { int = λ n w. (0, w); hex_bytes = λ n w. ("00", w) }

abbrev pub database_service : Service
database_service = record {
  id = 1;
  name = "db";
  type = postgres;
  image_ref = "postgres:16";
  status = pending;
  container_id = "";
  app_id = none;
  volume_path = "";
  credentials = "";
  config = "";
  internal_port = 5432;
  created_at = 0;
  updated_at = 0;
}

abbrev creds : Credentials
creds = of_postgres (of_password "secret")

docker-Decrypts : Decrypts docker
docker-Decrypts text stored w h = cc

abbrev provisioned : Service
provisioned = record database_service {
  status = active;
  container_id = "id-talos-svc-db";
  credentials = "!secret";
}

abbrev expected : ServiceContainer
expected = record {
  name = "talos-svc-db";
  image_ref = "postgres:16";
  internal_port = 5432;
  env = "POSTGRES_DB=app" ∷ "POSTGRES_USER=postgres" ∷ "POSTGRES_PASSWORD=secret" ∷ [];
  volumes = "/srv/talos/services/db:/var/lib/postgresql/data" ∷ [];
  health_check = some (record {
    test = "CMD-SHELL" ∷ "pg_isready -U $POSTGRES_USER" ∷ [];
    interval = 10;
    timeout = 5;
    retries = 5;
  });
  labels = ("managed-by", "talos") ∷ ("talos-svc", "db") ∷ ("talos-type", "postgres") ∷ [];
}

provisioned-configured :
    build_container_config docker provisioner provisioned "secret"
      (vol_host docker provisioner provisioned)
    ≡ ok expected
unfolding build_container_config rel service_definition type_text join_path
provisioned-configured = refl

abbrev first_start : IsStarted docker provisioner creds provisioned
first_start = record {
  status = refl;
  readable = refl;
  config = expected;
  configured = provisioned-configured;
  world = [];
  started = refl;
}

id_full : provisioned.container_id ≢ ""
id_full e = cc

start_repeats_example :
    (v : Host) × (start_service docker provisioner
        (stop_service docker provisioner provisioned []).0.0
        []
      ≡ restarted docker provisioner
          (stop_service docker provisioner provisioned []).0.0
          (ok "id-talos-svc-db")
          ("talos-svc-db" ∷ v))
start_repeats_example =
    start_repeats docker provisioner docker-Decrypts creds provisioned first_start id_full [] []

generated_in_range_example :
    IsDrawn random password_chars 24 (generate random password_chars 24 []).0
generated_in_range_example =
    generated_in_range random (λ n w pos. pos) password_chars (omega arith) 24 []
