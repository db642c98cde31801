-- ===== src/Services/Garage.antt =====
-- internal/services/provisioner.go: the bucket that a new Garage service is given.
use project_talos.Prelude.{
  ℕ, zero, suc, String, ◌<>◌, Bool, true, false, Option, none, some, List, [], ◌∷◌, is_empty, ◌==◌,
  string_eq, if◌then◌else◌,
}
use project_talos.Domain.{Error, wrap, Result, ok, err}
use project_talos.Domain.Service.{Service, Credentials, of_garage, GarageCredentials}
use project_talos.Action.{Action, pure, ◌>>=◌, ◌>>◌}
use project_talos.Services.{GarageBucket, Platform}
use project_talos.Services.Container.{container_name, is_garage}

-- The first address that is specified, or the name
abbrev first_address : String → List (Option String) → String
first_address name [] = name
first_address name (some address ∷ rest) = address
first_address name (none ∷ rest) = first_address name rest

abbrev inspected : String → Result (List (Option String)) → Result String
inspected name (err e) = err (wrap "resolve garage admin address" e)
inspected name (ok addresses) = ok ("http://" <> first_address name addresses <> ":3903")

module _ {W : Type 0} (platform : Platform W) where
  open platform use {
    update_service, encrypt, marshal, can_dial, inspect_addresses, wait_for_ready,
    is_cluster_configured, configure_single_node_layout, create_bucket,
  }

  unfoldable pub inspect_admin_url : String → Action W (Result String)
  inspect_admin_url name = do r ← inspect_addresses name; pure (inspected name r)

  -- `GarageAdminURL`
  unfoldable pub garage_admin_url : Service → Action W (Result String)
  unfolding inspect_admin_url
  garage_admin_url svc = do
    dialed ← can_dial (container_name svc <> ":3903")
    if dialed
        then pure (ok ("http://" <> container_name svc <> ":3903"))
        else inspect_admin_url (container_name svc)

  unfoldable pub encrypted_into : Service → Result String → Service × Option Error
  encrypted_into svc (err e) = (svc, some (wrap "encrypt" e))
  encrypted_into svc (ok text) = (record svc { credentials = text }, none)

  -- `EncryptCredentials`
  unfoldable pub encrypt_credentials : Service → Credentials → Action W (Service × Option Error)
  unfolding encrypted_into
  encrypt_credentials svc creds = do r ← encrypt (marshal creds); pure (encrypted_into svc r)

  -- The loop over the attempts, of which `n` are left; the answer of the last one counts.
  unfoldable pub create_with_retry :
      ℕ → String → String → String → Result GarageBucket → Action W (Result GarageBucket)
  create_with_retry n url token name (ok bucket) = pure (ok bucket)
  create_with_retry zero url token name (err e) = pure (err e)
  create_with_retry (suc n) url token name (err e) = do
    r ← create_bucket url token name
    create_with_retry n url token name r

  unfoldable pub stored_bucket : Service → Service × Option Error → Action W Service
  stored_bucket svc (svc', some e) = pure svc
  stored_bucket svc (svc', none) = do update_service svc'; pure svc'

  -- The credentials are stored again as they were: the bucket is not put into them.
  unfoldable pub bucket_created :
      Service → GarageCredentials → Result GarageBucket → Action W Service
  unfolding stored_bucket
  bucket_created svc c (err e) = pure svc
  bucket_created svc c (ok bucket) =
      if is_empty bucket.global_aliases
      then pure svc
      else do r ← encrypt_credentials svc (of_garage c); stored_bucket svc r

  unfoldable pub configure : String → String → Result Bool → Action W (Option Error)
  configure url token (err e) = pure none
  configure url token (ok true) = pure none
  configure url token (ok false) = configure_single_node_layout url token

  unfoldable pub garage_ready :
      Service → GarageCredentials → String → Option Error → Action W Service
  unfolding create_with_retry bucket_created configure
  garage_ready svc c url (some e) = pure svc
  garage_ready svc c url none = do
    r ← is_cluster_configured url c.admin_token
    configure url c.admin_token r
    first ← create_bucket url c.admin_token svc.name
    bucket ← create_with_retry 9 url c.admin_token svc.name first
    bucket_created svc c bucket

  unfoldable pub url_found : Service → GarageCredentials → Result String → Action W Service
  unfolding garage_ready
  url_found svc c (err e) = pure svc
  url_found svc c (ok url) = do r ← wait_for_ready url c.admin_token; garage_ready svc c url r

  unfoldable pub bucket_for : Service → Credentials → Action W Service
  unfolding url_found
  bucket_for svc (of_garage c) =
      if c.bucket == "" then (do r ← garage_admin_url svc; url_found svc c r) else pure svc
  bucket_for svc _ = pure svc

  -- The default bucket of a Garage service that was given none
  unfoldable pub auto_create_bucket : Service → Credentials → Action W Service
  unfolding bucket_for
  auto_create_bucket svc creds = if is_garage svc.type then bucket_for svc creds else pure svc
