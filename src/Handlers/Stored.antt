-- ===== src/Handlers/Stored.antt =====
-- internal/server/handlers/app.go: what a response says of the store.
use project_talos.Prelude.{◌≡◌, ◌≢◌, trim_space, string_eq}
use project_talos.Handlers.Access.{IsReachable, host_of}
use project_talos.Domain.{App, AppType, AppStatus, ok}
use project_talos.Handlers.{AppServer, CreateAppRequest, normalize_app_type, apply_access_fields}

module _ {W : Type 0} (server : AppServer W) where
  -- What a request asks for has the field that its kind of app needs, not blank.
  abbrev pub HasField : CreateAppRequest → AppType → Type 0
  HasField req AppType.adopted_container = trim_space req.container_name ≢ ""
  HasField req AppType.external_service = trim_space req.external_target ≢ ""
  HasField req _ = trim_space req.repo_url ≢ ""

  -- The row has what the request says, and the proxy of the server.
  abbrev pub Asked : CreateAppRequest → App → Type 0
  Asked req app =
      (app.name ≡ req.name)
      × (app.app_type ≡ normalize_app_type req.app_type)
      × (app.repo_url ≡ trim_space req.repo_url)
      × (app.container_name ≡ trim_space req.container_name)
      × (app.external_target ≡ trim_space req.external_target)
      × (app.domain ≡ trim_space req.domain)
      × (app.edge_provider ≡ server.edge_provider)
      × (app.status ≡ AppStatus.inactive)

  -- The app `a` is the row that was made of the request: valid, named, and with an address.
  abbrev pub IsCreated : CreateAppRequest → App → W → Type 0
  IsCreated req a w =
      (req.name ≢ "")
      × HasField req req.app_type
      × ((draft : App) × (app : App) × Asked req draft
          × ((apply_access_fields server draft w).0 ≡ ok app)
          × IsReachable (host_of server) app
          × ((server.create_app app (apply_access_fields server draft w).1).0 ≡ ok a))
