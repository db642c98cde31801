-- ===== src/Handlers/Access.antt =====
-- internal/server/handlers/app.go: the address of an app that is saved.
use project_talos.Prelude.{
  ℕ, String, ◌<>◌, ◌≡◌, ◌≢◌, refl, subst, sym, ap, ◌∙◌, true, false, show, ◌==◌, string_eq, eq_iff,
  Bool-cases, inl, inr, if◌then◌else◌,
}
use project_talos.Domain.{App, AppType, AccessMode, Result, ok, err}
use project_talos.Action.{pure, ◌>>=◌}
use project_talos.Handlers.{AppServer, with_port, access_by_type, apply_access_fields}

-- The host in the address of an app on a port: the domain of the server, if it has one.
abbrev pub host_of : {W : Type 0} → AppServer W → String
host_of server = if server.server_domain == "" then server.server_host else server.server_domain

-- The port and the address of an app without a domain, by its type
abbrev pub HasAddress : String → AppType → App → Type 0
HasAddress host AppType.managed app =
    app.access_url ≡ "http://" <> host <> ":" <> show app.fallback_port
HasAddress host AppType.external_service app =
    (app.fallback_port ≡ 0) × (app.access_url ≡ app.external_target)
HasAddress host _ app = (app.fallback_port ≡ 0) × (app.access_url ≡ "")

-- The mode, the port and the address agree with the domain and the type.
abbrev pub IsReachable : String → App → Type 0
IsReachable host app =
    (app.domain ≢ ""
      → (app.access_mode ≡ AccessMode.domain)
        × (app.access_url ≡ "https://" <> app.domain)
        × (app.fallback_port ≡ 0))
    × (app.domain ≡ "" → (app.access_mode ≡ AccessMode.port) × HasAddress host app.app_type app)

-- The app without its address, and with the address of its domain
abbrev cleared : App → App
cleared app = record app { fallback_port = 0; access_url = ""; access_mode = AccessMode.port }

abbrev on_domain : App → App
on_domain app = record app {
  fallback_port = 0;
  access_mode = AccessMode.domain;
  access_url = "https://" <> app.domain;
}

module _ {W : Type 0} (server : AppServer W) where
  ok_injective : {A : Type 0} {a b : A} → ok a ≡ ok b → a ≡ b
  ok_injective p = cc

  -- What holds of an app without a domain after its address was filled in
  abbrev Addressed : AppType → App → Type 0
  Addressed t app =
      (app.domain ≡ "")
      × (app.app_type ≡ t)
      × (app.access_mode ≡ AccessMode.port)
      × HasAddress (host_of server) t app

  with_port-Addressed :
      (app app' : App) (r : Result ℕ)
      → app.app_type ≡ AppType.managed
      → app.domain ≡ ""
      → app.access_mode ≡ AccessMode.port
      → with_port server app r ≡ ok app'
      → Addressed AppType.managed app'
  unfolding with_port
  with_port-Addressed app app' (err e) q d m h = absurd cc
  with_port-Addressed app app' (ok port) q d m h =
      subst (Addressed AppType.managed) (ok_injective h) (d, q, m, refl)

  address_of_type :
      (app app' : App) (t : AppType) (w : W)
      → app.app_type ≡ t
      → app.domain ≡ ""
      → app.fallback_port ≡ 0
      → app.access_url ≡ ""
      → app.access_mode ≡ AccessMode.port
      → (access_by_type server app t w).0 ≡ ok app'
      → Addressed t app'
  unfolding access_by_type ◌>>=◌
  address_of_type app app' AppType.managed w q d p u m h = with_port-Addressed app app' _ q d m h
  address_of_type app app' AppType.adopted_container w q d p u m h =
      subst (Addressed AppType.adopted_container) (ok_injective h) (d, q, m, (p, u))
  address_of_type app app' AppType.external_service w q d p u m h =
      subst (Addressed AppType.external_service) (ok_injective h) (d, q, m, (p, refl))
  address_of_type app app' (AppType.other t) w q d p u m h =
      subst (Addressed (AppType.other t)) (ok_injective h) (d, q, m, (p, u))

  -- An app that was given its address has the mode, the port and the address that its domain and its
  -- type ask for, and its domain and type are as they were.
  pub address_agrees :
      (app app' : App) (w : W)
      → (apply_access_fields server app w).0 ≡ ok app'
      → IsReachable (host_of server) app'
        × (app'.domain ≡ app.domain)
        × (app'.app_type ≡ app.app_type)
  unfolding apply_access_fields pure
  address_agrees app app' w h = elim (Bool-cases (app.domain == "")) [
    | inl p ↦ without_domain p
    | inr p ↦ with_domain p
  ]
    where
      by_type :
          (app.domain == "") ≡ true
          → apply_access_fields server app w ≡ access_by_type server (cleared app) app.app_type w
      by_type p = rw (p) refl

      by_domain :
          (app.domain == "") ≡ false → (apply_access_fields server app w).0 ≡ ok (on_domain app)
      by_domain p = rw (p) refl

      without_domain :
          (app.domain == "") ≡ true
          → IsReachable (host_of server) app'
            × (app'.domain ≡ app.domain)
            × (app'.app_type ≡ app.app_type)
      without_domain p =
          let (d, t, m, a) =
            address_of_type (cleared app) app' app.app_type w refl ((eq_iff app.domain "").0 p) refl
              refl refl (sym (ap (λ r. r.0) (by_type p)) ∙ h) in
          (
            (
              (λ n. absurd (n d)),
              (λ e. (m, subst (λ x. HasAddress (host_of server) x app') (sym t) a)),
            ),
            d ∙ sym ((eq_iff app.domain "").0 p),
            t,
          )

      apart : (app.domain == "") ≡ false → app.domain ≡ "" → ⊥
      apart p e = cc ((eq_iff app.domain "").1 e)

      with_domain :
          (app.domain == "") ≡ false
          → IsReachable (host_of server) app'
            × (app'.domain ≡ app.domain)
            × (app'.app_type ≡ app.app_type)
      with_domain p =
          subst
            (λ x.
              IsReachable (host_of server) x
              × (x.domain ≡ app.domain)
              × (x.app_type ≡ app.app_type))
            (ok_injective (sym (by_domain p) ∙ h))
            (((λ n. (refl, refl, refl)), (λ e. absurd (apart p e))), refl, refl)
