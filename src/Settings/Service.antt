-- ===== src/Settings/Service.antt =====
-- internal/settings/service.go: `Load` and `Save`. Docker's inspection and the file functions, which
-- are fields of the service in the source too, are operations on a world of type `W`.
use project_talos.Prelude.{
  ℕ, String, Bool, true, false, not, ◌&&◌, Option, none, some, List, [], ◌∷◌, split, trim_space,
  dir, ◌==◌, string_eq, if◌then◌else◌,
}
use project_talos.Domain.{Error, Result, ok, err}
use project_talos.Action.{Action}
use project_talos.Proxy.{ProxyMode, internal, external}
use project_talos.Settings.EnvFile.{Dict, lookup, parse_env, update_env}
use project_talos.Settings.Apply.{
  InstallMode, unknown, docker, bare, configured_url, apply_title, apply_description, apply_command,
}

-- What `readFile` answers; `os.IsNotExist` tells the second from the third.
pub data Reading : Type 0 where
  content : String → Reading
  not_exist : Reading
  failed : Error → Reading

pub record Files (W : Type 0) : Type 0 where
  -- `docker.Inspect("talos")`: none if it fails or there is no client; the image may be missing
  pub inspect_talos : W → Option (Option String)
  pub file_exists : String → W → Bool
  pub read_file : String → W → Reading
  pub mkdir_all : String → Action W (Option Error)
  pub write_file : String → String → Action W (Option Error)

-- Without `EdgeProvider`, which has one value, and `SupportsAppDomains`, which is true
pub record Snapshot : Type 0 where
  pub domain : String
  pub acme_email : String
  pub proxy_mode : ProxyMode
  pub edge_network : String
  pub edge_cert_resolver : String
  pub edge_entrypoint : String
  pub mode : InstallMode
  pub env_path : String
  pub docker_image : String
  pub configured_url : String
  pub apply_command : String
  pub apply_title : String
  pub apply_description : String

pub record UpdateInput : Type 0 where
  pub domain : String
  pub acme_email : String
  pub proxy_mode : String
  pub edge_provider : String
  pub edge_network : String
  pub edge_cert_resolver : String
  pub edge_entrypoint : String

unfoldable pub parse_proxy_mode : String → ProxyMode
parse_proxy_mode v = if trim_space v == "external" then external else internal

abbrev pub proxy_mode_text : ProxyMode → String
proxy_mode_text internal = "internal"
proxy_mode_text external = "external"

-- `parseEdgeProvider`: there is one provider.
abbrev pub parse_edge_provider : String → String
parse_edge_provider _ = "traefik"

unfoldable pub default_string : String → String → String
default_string v fallback = if trim_space v == "" then fallback else trim_space v

abbrev pub docker_env_path : String
docker_env_path = "/opt/talos/.env"

abbrev pub legacy_env_path : String
legacy_env_path = "/etc/talos/.env"

-- `values[key]`: a missing key is an empty text.
abbrev pub get : String → Dict → String
get key m = elim (lookup key m) [ none ↦ "" | some value ↦ value ]

unfoldable pub updates_of : UpdateInput → Dict
updates_of input =
    ("TALOS_DOMAIN", trim_space input.domain)
    ∷ ("TALOS_ACME_EMAIL", trim_space input.acme_email)
    ∷ ("TALOS_PROXY_MODE", proxy_mode_text (parse_proxy_mode input.proxy_mode))
    ∷ ("TALOS_EDGE_PROVIDER", parse_edge_provider input.edge_provider)
    ∷ ("TALOS_EDGE_NETWORK", default_string input.edge_network "traefik-public")
    ∷ ("TALOS_EDGE_CERT_RESOLVER", default_string input.edge_cert_resolver "letsencrypt")
    ∷ ("TALOS_EDGE_ENTRYPOINT", default_string input.edge_entrypoint "websecure")
    ∷ []

abbrev pub lines_of : Reading → List String
lines_of (content text) = split b'\n' text
lines_of _ = []

abbrev pub is_unknown : InstallMode → Bool
is_unknown unknown = true
is_unknown _ = false

module _ {W : Type 0} (files : Files W) where
  open files use {inspect_talos, file_exists, read_file, mkdir_all, write_file}

  abbrev image_or_empty : Option String → String
  image_or_empty none = ""
  image_or_empty (some image) = image

  unfoldable pub mode_without_docker : W → InstallMode
  mode_without_docker w =
      if file_exists "/etc/systemd/system/talos.service" w && file_exists "/usr/local/bin/talos" w
      then bare
      else unknown

  unfoldable pub mode_of : W → Option (Option String) → InstallMode × String
  unfolding mode_without_docker
  mode_of w (some image) = (docker, image_or_empty image)
  mode_of w none = (mode_without_docker w, "")

  unfoldable pub detect_install_mode : W → InstallMode × String
  unfolding mode_of
  detect_install_mode w = mode_of w (inspect_talos w)

  -- The first argument is the path that `WithEnvPath` set.
  unfoldable pub resolve_env_path : String → InstallMode → W → String
  resolve_env_path env_path mode w =
      if not (env_path == "")
      then env_path
      else if file_exists docker_env_path w
      then docker_env_path
      else if not (is_unknown mode)
      then docker_env_path
      else if file_exists legacy_env_path w
      then legacy_env_path
      else if file_exists ".env" w
      then ".env"
      else docker_env_path

  -- The snapshot of some values, as both functions build it
  unfoldable pub snapshot :
      InstallMode
      → String
      → String
      → String
      → ℕ
      → W
      → (domain email : String) → ProxyMode
      → (edge_network edge_cert_resolver edge_entrypoint : String) → Snapshot
  snapshot mode image env_path host port w domain email proxy_mode network resolver entrypoint =
      record {
        domain = domain;
        acme_email = email;
        proxy_mode = proxy_mode;
        edge_network = network;
        edge_cert_resolver = resolver;
        edge_entrypoint = entrypoint;
        mode = mode;
        env_path = env_path;
        docker_image = image;
        configured_url = configured_url domain host port;
        apply_command =
            apply_command (λ path. file_exists path w) mode proxy_mode
              record {
                docker_image = image;
                env_path = env_path;
                port = port;
                edge_network = network;
                edge_cert_resolver = resolver;
                domain = domain;
              };
        apply_title = apply_title mode proxy_mode;
        apply_description = apply_description mode proxy_mode;
      }

  unfoldable pub load_values : InstallMode → String → String → String → ℕ → W → Dict → Snapshot
  unfolding snapshot
  load_values mode image env_path host port w values =
      snapshot mode image env_path host port w (trim_space (get "TALOS_DOMAIN" values))
        (trim_space (get "TALOS_ACME_EMAIL" values))
        (parse_proxy_mode (get "TALOS_PROXY_MODE" values))
        (default_string (get "TALOS_EDGE_NETWORK" values) "traefik-public")
        (default_string (get "TALOS_EDGE_CERT_RESOLVER" values) "letsencrypt")
        (default_string (get "TALOS_EDGE_ENTRYPOINT" values) "websecure")

  -- A file that does not exist has no values.
  unfoldable pub load_from :
      InstallMode → String → String → String → ℕ → W → Reading → Result Snapshot
  unfolding load_values
  load_from mode image env_path host port w (content text) =
      ok (load_values mode image env_path host port w (parse_env text))
  load_from mode image env_path host port w not_exist =
      ok (load_values mode image env_path host port w [])
  load_from mode image env_path host port w (failed e) = err e

  unfoldable pub load : String → String → ℕ → W → Result Snapshot
  unfolding detect_install_mode resolve_env_path load_from
  load with_env_path host port w =
      let (mode, image) = detect_install_mode w in
      let env_path = resolve_env_path with_env_path mode w in
      load_from mode image env_path host port w (read_file env_path w)

  unfoldable pub written : String → String → Option Error → Action W (Option Error)
  written path text (some e) w = (some e, w)
  written path text none w = write_file path text w

  unfoldable pub update_read : String → Dict → Reading → Action W (Option Error)
  unfolding written
  update_read path updates (failed e) w = (some e, w)
  update_read path updates reading w =
      let (made, w') = mkdir_all (dir path) w in
      written path (update_env updates (lines_of reading)) made w'

  unfoldable pub update_env_file : String → Dict → Action W (Option Error)
  unfolding update_read
  update_env_file path updates w = update_read path updates (read_file path w) w

  -- The snapshot that `Save` returns shows the values that it wrote.
  unfoldable pub saved :
      InstallMode → String → String → String → ℕ → Dict → Option Error → Action W (Result Snapshot)
  unfolding snapshot
  saved mode image env_path host port updates (some e) w = (err e, w)
  saved mode image env_path host port updates none w = (
    ok (
        snapshot mode image env_path host port w (get "TALOS_DOMAIN" updates)
          (get "TALOS_ACME_EMAIL" updates) (parse_proxy_mode (get "TALOS_PROXY_MODE" updates))
          (get "TALOS_EDGE_NETWORK" updates) (get "TALOS_EDGE_CERT_RESOLVER" updates)
          (get "TALOS_EDGE_ENTRYPOINT" updates)),
    w,
  )

  unfoldable pub save : String → UpdateInput → String → ℕ → Action W (Result Snapshot)
  unfolding detect_install_mode resolve_env_path updates_of update_env_file saved
  save with_env_path input host port w =
      let (mode, image) = detect_install_mode w in
      let env_path = resolve_env_path with_env_path mode w in
      let updates = updates_of input in
      let (result, w') = update_env_file env_path updates w in
      saved mode image env_path host port updates result w'
