-- ===== src/Services/Started.antt =====
-- internal/services/provisioner.go: what a successful provisioning leaves, and a later start repeats.
use project_talos.Prelude.{
  String, ◌≡◌, ◌≢◌, refl, ◌∙◌, sym, subst, none, string_eq, if◌then◌else◌, ◌==◌, eq_iff, Bool-cases,
  inl, inr,
}
use project_talos.Domain.{ok}
use project_talos.Domain.Service.{
  Service, ServiceType, postgres, mysql, redis, garage, garage_webui, other, ServiceStatus, active,
  stopped, Credentials,
}
use project_talos.Action.{Action, pure, ◌>>=◌, ◌>>◌}
use project_talos.Action.Triples.{Triple}
use project_talos.Services.{ServiceContainer, Platform, Provisioner}
use project_talos.Services.Container.{
  container_name, is_garage, config_of_type, build_container_config,
}
use project_talos.Services.Provision.{
  Outcome, vol_host, restarted, restart_config, decrypted, write_config, start_service,
  stop_service,
}
use project_talos.Services.Readable.{Decrypts, Anywhere, Readable}

-- The container of a service runs from a configuration that its stored credentials give again.
pub record IsStarted {W : Type 0} (platform : Platform W) (p : Provisioner) (creds : Credentials)
    (svc : Service) : Type 0 where
  pub status : svc.status ≡ active
  pub readable : platform.decrypt svc.credentials ≡ ok (platform.marshal creds)
  pub config : ServiceContainer
  pub configured :
      build_container_config platform p svc (platform.marshal creds) (vol_host platform p svc)
      ≡ ok config
  pub world : W
  pub started : (platform.start_container config world).0 ≡ ok svc.container_id

abbrev Success : {W : Type 0} → Platform W → Provisioner → Credentials → Outcome → W → Type 0
Success platform p creds r w = r.1 ≡ none → IsStarted platform p creds r.0

-- The service without its container
abbrev stopped_again : Service → Service
stopped_again svc = record svc { status = stopped; container_id = "" }

module _ {W : Type 0} (platform : Platform W) (p : Provisioner) (decrypts : Decrypts platform)
    (creds : Credentials) where
  open platform use {decrypt, marshal, start_container}

  -- The configuration does not depend on what is known of the running container.
  same_config :
      (type : ServiceType) (svc : Service) (status : ServiceStatus) (id text json vol : String)
      → config_of_type platform p type
          (record svc { status = status; container_id = id; credentials = text })
          json
          vol
        ≡ config_of_type platform p type svc json vol
  unfolding config_of_type
  same_config postgres svc status id text json vol = refl
  same_config mysql svc status id text json vol = refl
  same_config redis svc status id text json vol = refl
  same_config garage svc status id text json vol = refl
  same_config garage_webui svc status id text json vol = refl
  same_config (other t) svc status id text json vol = refl

  abbrev Built : Service → ServiceContainer → Type 0
  Built svc config =
      build_container_config platform p svc (marshal creds) (vol_host platform p svc) ≡ ok config

  abbrev Succeeds : Action W Outcome → Type 0
  Succeeds m = Triple (Anywhere platform) m (Success platform p creds)

  -- What a stop leaves of a service with a container
  stop-stopped_again :
      (svc : Service) (w : W)
      → svc.container_id ≢ ""
      → (stop_service platform p svc w).0.0 ≡ stopped_again svc
  unfolding stop_service ◌>>=◌ ◌>>◌ pure
  stop-stopped_again svc w n = elim (Bool-cases (svc.container_id == "")) [
    | inl t ↦ absurd (n ((eq_iff svc.container_id "").0 t))
    | inr f ↦ rw f refl
  ]

  start_stopped :
      (svc : Service)
      → (i : IsStarted platform p creds svc) → (w : W)
      → (v : W) × (start_service platform p (stopped_again svc) w
          ≡ restarted platform p
              (stopped_again svc)
              (start_container i.config v).0
              (start_container i.config v).1)
  unfolding start_service decrypted restart_config build_container_config ◌>>=◌
  start_stopped svc i w = (
    (platform.stop_and_remove (container_name svc) (written w)).1,
    rw (i.readable) (
        rw (same_config svc.type svc stopped "" svc.credentials (marshal creds) _ ∙ i.configured)
          refl),
  )
    where
      written : W → W
      written v =
          ((if is_garage svc.type
              then write_config platform p (stopped_again svc)
                  (platform.unmarshal_garage (marshal creds))
              else pure none)
            v).1

  -- A service that was provisioned, and has a container, and was then stopped is started again from
  -- the same configuration: the start of what the stop leaves calls Docker with it, and ends as
  -- Docker answers.
  pub start_repeats :
      (svc : Service)
      → (i : IsStarted platform p creds svc) → svc.container_id ≢ ""
      → (stopping starting : W)
      → (v : W) × (start_service platform p (stop_service platform p svc stopping).0.0 starting
          ≡ restarted platform p
              (stop_service platform p svc stopping).0.0
              (start_container i.config v).0
              (start_container i.config v).1)
  start_repeats svc i n stopping starting =
      subst
        (λ s.
          (v : W) × (start_service platform p s starting
            ≡ restarted platform p s (start_container i.config v).0 (start_container i.config v).1))
        (sym (stop-stopped_again svc stopping n)) (start_stopped svc i starting)
