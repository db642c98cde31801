-- ===== src/Proxy.antt =====
-- internal/proxy/traefik/manager.go: what the manager writes and decides for an app.
use project_talos.Prelude.{
  ℕ, String, ◌<>◌, Bool, true, false, not, ◌&&◌, ◌||◌, Option, none, some, List, [], ◌∷◌, show,
  ◌==◌, string_eq, if◌then◌else◌,
}
use project_talos.Domain.{App, AccessMode, AppType}

-- `config.ProxyMode`
pub data ProxyMode : Type 0 where
  internal external : ProxyMode

abbrev pub is_external : ProxyMode → Bool
is_external external = true
is_external internal = false

abbrev pub is_port : AccessMode → Bool
is_port AccessMode.port = true
is_port AccessMode.domain = false

abbrev pub is_domain : AccessMode → Bool
is_domain AccessMode.domain = true
is_domain AccessMode.port = false

abbrev pub is_external_service : AppType → Bool
is_external_service AppType.external_service = true
is_external_service _ = false

pub record Manager : Type 0 where
  pub config_dir : String
  pub data_dir : String
  pub host_data_root : String
  pub network : String
  pub edge_network : String
  pub domain : String
  pub acme_email : String
  pub edge_cert_resolver : String
  pub edge_entrypoint : String
  pub proxy_mode : ProxyMode
  pub server_port : ℕ

-- `RequiresExclusiveSwitch`
unfoldable pub requires_exclusive_switch : Manager → App → Bool
requires_exclusive_switch m app = is_external m.proxy_mode && is_domain app.access_mode

-- `ExternalNetworks`
unfoldable pub external_networks : Manager → App → List String
external_networks m app =
    if not (is_external m.proxy_mode) || not (is_domain app.access_mode) || m.edge_network == ""
    then []
    else if m.edge_network == m.network
    then []
    else m.edge_network ∷ []

abbrev pub or_default : String → String → String
or_default v fallback = if v == "" then fallback else v

-- `ExternalLabels`, the map as a list of its entries
unfoldable pub external_labels : Manager → App → List (String × String)
external_labels m app =
    if not (is_external m.proxy_mode) || not (is_domain app.access_mode) || app.domain == ""
    then []
    else ("traefik.enable", "true")
      ∷ ("traefik.docker.network", or_default m.edge_network "traefik-public")
      ∷ ("traefik.http.routers." <> app.name <> ".rule", "Host(`" <> app.domain <> "`)")
      ∷ (
        "traefik.http.routers." <> app.name <> ".entrypoints",
        or_default m.edge_entrypoint "websecure",
      )
      ∷ ("traefik.http.routers." <> app.name <> ".tls", "true")
      ∷ (
        "traefik.http.routers." <> app.name <> ".tls.certresolver",
        or_default m.edge_cert_resolver "letsencrypt",
      )
      ∷ (
        "traefik.http.services." <> app.name <> ".loadbalancer.server.port",
        show app.internal_port,
      )
      ∷ []

pub record RouteData : Type 0 where
  pub name : String
  pub rule : String
  pub target_url : String
  pub entry_points : List String
  pub tls : Bool

-- What `UpdateRoute` writes to `<configDir>/<name>.yml`, field by field of its template; `none`
-- where it returns before it opens the file.
unfoldable pub route_of : Manager → App → String → Option RouteData
route_of m app container_name =
    if is_port app.access_mode
    then none
    else if is_external m.proxy_mode
    then none
    else if is_external_service app.app_type && not (app.external_target == "")
    then some (record {
      name = app.name;
      rule = "Host(`" <> app.domain <> "`)";
      target_url = app.external_target;
      entry_points = "websecure" ∷ [];
      tls = true;
    })
    else some (record {
      name = app.name;
      rule = "Host(`" <> app.domain <> "`)";
      target_url = "http://" <> container_name <> ":" <> show app.internal_port;
      entry_points = if not (m.domain == "") then "websecure" ∷ [] else "web" ∷ [];
      tls = not (m.domain == "");
    })
