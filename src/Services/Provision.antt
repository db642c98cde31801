-- ===== src/Services/Provision.antt =====
-- internal/services/provisioner.go: starting, stopping and deleting managed services. The service is a
-- pointer in the source, so the functions return the struct as they leave it.
use project_talos.Prelude.{
  ℕ, String, Bool, true, false, Option, none, some, [], ◌∷◌, join_path, ◌==◌, string_eq,
  if◌then◌else◌,
}
use project_talos.Domain.{Error, wrap, Result, ok, err}
use project_talos.Domain.Service.{
  Service, ServiceStatus, provisioning, active, error, stopped, Credentials, of_garage,
  GarageCredentials,
}
use project_talos.Action.{Action, pure, ◌>>=◌, ◌>>◌}
use project_talos.Services.{ServiceContainer, Platform, Provisioner}
use project_talos.Services.Container.{
  container_name, is_garage, generate_garage_config, build_container_config,
}
use project_talos.Services.Garage.{auto_create_bucket}

abbrev pub Outcome : Type 0
Outcome = Service × Option Error

abbrev is_active : ServiceStatus → Bool
is_active active = true
is_active _ = false

abbrev wrap_error : String → Option Error → Option Error
wrap_error text none = none
wrap_error text (some e) = some (wrap text e)

module _ {W : Type 0} (platform : Platform W) (p : Provisioner) where
  open platform use {
    get_service, update_service, delete_service, encrypt, decrypt, marshal, unmarshal_garage,
    mkdir_all, is_dir, remove_all, write_file, pull_image, stop_and_remove, start_container,
  }

  abbrev pub vol_host : Service → String
  vol_host svc = join_path (p.data_dir ∷ "services" ∷ svc.name ∷ [])

  abbrev pub config_path : Service → String
  config_path svc = join_path (vol_host svc ∷ "garage.toml" ∷ [])

  -- An error, with the status stored
  unfoldable pub mark_error : Service → String → Error → Action W Outcome
  mark_error svc text e = do
    let svc' = record svc { status = error }
    update_service svc'
    pure (svc', some (wrap text e))

  -- The last part of `ProvisionService`: the container runs.
  unfoldable pub stored_active : Service → Credentials → Option Error → Action W Outcome
  stored_active svc creds (some e) = pure (svc, some (wrap "update service" e))
  stored_active svc creds none = do svc' ← auto_create_bucket platform svc creds; pure (svc', none)

  unfoldable pub container_started : Service → Credentials → Result String → Action W Outcome
  unfolding stored_active mark_error
  container_started svc creds (err e) = mark_error svc "start container" e
  container_started svc creds (ok container_id) = do
    let svc' = record svc { container_id = container_id; status = active }
    r ← update_service svc'
    stored_active svc' creds r

  unfoldable pub image_pulled :
      Service → Credentials → ServiceContainer → Option Error → Action W Outcome
  unfolding container_started
  image_pulled svc creds config (some e) = mark_error svc "pull image" e
  image_pulled svc creds config none = do
    stop_and_remove (container_name svc)
    r ← start_container config
    container_started svc creds r

  unfoldable pub config_built : Service → Credentials → Result ServiceContainer → Action W Outcome
  unfolding image_pulled
  config_built svc creds (err e) = pure (svc, some (wrap "build config" e))
  config_built svc creds (ok config) = do
    r ← pull_image svc.image_ref
    image_pulled svc creds config r

  unfoldable pub files_ready : Service → Credentials → Option Error → Action W Outcome
  unfolding config_built
  files_ready svc creds (some e) = pure (svc, some (wrap "write garage config" e))
  files_ready svc creds none =
      config_built svc creds (build_container_config platform p svc (marshal creds) (vol_host svc))

  -- A directory that Docker made in the place of the file is removed.
  unfoldable pub write_config : Service → GarageCredentials → Action W (Option Error)
  write_config svc c = do
    found ← is_dir (config_path svc)
    if found then remove_all (config_path svc) else pure tt
    write_file (config_path svc) (generate_garage_config c)

  -- The source panics on credentials of another type, which nothing gives to a Garage service.
  unfoldable pub garage_files : Service → Credentials → Action W (Option Error)
  unfolding write_config
  garage_files svc (of_garage c) = do
    mkdir_all (join_path (vol_host svc ∷ "meta" ∷ []))
    mkdir_all (join_path (vol_host svc ∷ "data" ∷ []))
    write_config svc c
  garage_files svc _ = pure none

  unfoldable pub volume_made : Service → Credentials → Option Error → Action W Outcome
  unfolding files_ready garage_files
  volume_made svc creds (some e) = pure (svc, some (wrap "create volume dir" e))
  volume_made svc creds none = do
    r ← if is_garage svc.type then garage_files svc creds else pure none
    files_ready svc creds r

  -- From the credentials that are stored with the service on
  unfoldable pub provision_encrypted : Service → Credentials → Action W Outcome
  unfolding volume_made
  provision_encrypted svc creds = do r ← mkdir_all (vol_host svc); volume_made svc creds r

  unfoldable pub encrypted : Service → Credentials → Result String → Action W Outcome
  unfolding provision_encrypted
  encrypted svc creds (err e) = pure (svc, some (wrap "encrypt credentials" e))
  encrypted svc creds (ok text) = provision_encrypted (record svc { credentials = text }) creds

  unfoldable pub status_stored : Service → Credentials → Option Error → Action W Outcome
  unfolding encrypted
  status_stored svc creds (some e) = pure (svc, some (wrap "update status" e))
  status_stored svc creds none = do r ← encrypt (marshal creds); encrypted svc creds r

  -- `ProvisionService`
  unfoldable pub provision_service : Service → Credentials → Action W Outcome
  unfolding status_stored
  provision_service svc creds = do
    let svc' = record svc { status = provisioning }
    r ← update_service svc'
    status_stored svc' creds r

  -- `StopService`
  unfoldable pub stop_service : Service → Action W Outcome
  stop_service svc = if svc.container_id == "" then pure (svc, none) else do
    stop_and_remove (container_name svc)
    let svc' = record svc { container_id = ""; status = stopped }
    r ← update_service svc'
    pure (svc', r)

  unfoldable pub delete_found : ℕ → Result Service → Action W (Option Error)
  delete_found id (err e) = pure (some (wrap "get service" e))
  delete_found id (ok svc) = do stop_and_remove (container_name svc); delete_service id

  -- `Provisioner.DeleteService`
  unfoldable pub delete_provisioned : ℕ → Action W (Option Error)
  unfolding delete_found
  delete_provisioned id = do r ← get_service id; delete_found id r

  unfoldable pub restarted : Service → Result String → Action W Outcome
  unfolding mark_error
  restarted svc (err e) = mark_error svc "start container" e
  restarted svc (ok container_id) = do
    let svc' = record svc { container_id = container_id; status = active }
    r ← update_service svc'
    pure (svc', r)

  unfoldable pub restart_config : Service → Result ServiceContainer → Action W Outcome
  unfolding restarted
  restart_config svc (err e) = pure (svc, some (wrap "build config" e))
  restart_config svc (ok config) = do
    stop_and_remove (container_name svc)
    r ← start_container config
    restarted svc r

  unfoldable pub decrypted : Service → Result String → Action W Outcome
  unfolding restart_config write_config
  decrypted svc (err e) = pure (svc, some (wrap "decrypt credentials" e))
  decrypted svc (ok cred_json) = do
    if is_garage svc.type then write_config svc (unmarshal_garage cred_json) else pure none
    restart_config svc (build_container_config platform p svc cred_json (vol_host svc))

  -- `StartService`
  unfoldable pub start_service : Service → Action W Outcome
  unfolding decrypted
  start_service svc =
      if is_active svc.status then pure (svc, none) else decrypted svc (decrypt svc.credentials)
