-- ===== src/Handlers/Buckets.antt =====
-- internal/server/handlers/service.go: the buckets of a Garage service.
use project_talos.Prelude.{
  ℕ, String, Option, none, some, List, [], ◌∷◌, ◌==◌, string_eq, if◌then◌else◌,
}
use project_talos.Domain.{Error, Result, ok, err}
use project_talos.Domain.Service.{Service, of_garage, GarageCredentials}
use project_talos.Action.{Action, pure, ◌>>=◌, ◌>>◌}
use project_talos.Services.{Platform, GarageBucket}
use project_talos.Services.Container.{is_garage}
use project_talos.Services.Garage.{garage_admin_url, encrypt_credentials}
use project_talos.Handlers.Services.{
  Reply, failure, bad_gateway, done, buckets_reply, bucket_reply, ServiceStore,
}

-- The service and its credentials, or the reply
abbrev Found : Type 0
Found = Option (Service × GarageCredentials)

module _ {W : Type 0} (platform : Platform W) (store : ServiceStore W) where
  -- `decryptGarageCreds`
  with_creds :
      Service → Result String → (Service → GarageCredentials → Action W Reply) → Action W Reply
  with_creds svc (err _) next = pure (failure 500 "decrypt failed")
  with_creds svc (ok json) next = next svc (platform.unmarshal_garage json)

  -- `getGarageService`
  found_garage : Result Service → (Service → GarageCredentials → Action W Reply) → Action W Reply
  unfolding with_creds
  found_garage (err _) next = pure (failure 404 "service not found")
  found_garage (ok svc) next =
      if is_garage svc.type
      then with_creds svc (platform.decrypt svc.credentials) next
      else pure (failure 400 "not a garage service")

  unfoldable pub garage_service :
      Option ℕ → (Service → GarageCredentials → Action W Reply) → Action W Reply
  unfolding found_garage
  garage_service none next = pure (failure 400 "invalid service id")
  garage_service (some id) next = do r ← platform.get_service id; found_garage r next

  at_url : Result String → (String → Action W Reply) → Action W Reply
  at_url (err e) next = pure (bad_gateway "resolve garage" e)
  at_url (ok url) next = next url

  listed : Result (List GarageBucket) → Reply
  listed (err e) = bad_gateway "garage admin API" e
  listed (ok buckets) = buckets_reply buckets

  unfoldable pub list_buckets : Option ℕ → Action W Reply
  unfolding at_url listed
  list_buckets id = garage_service id λ svc c. do
    url ← garage_admin_url platform svc
    at_url url λ u. do r ← store.list_buckets u c.admin_token; pure (listed r)

  store_encrypted : Service × Option Error → Action W (Option Error)
  store_encrypted (svc, none) = platform.update_service svc
  store_encrypted (svc, some e) = pure none

  first_alias : Service → GarageCredentials → List String → Action W (Option Error)
  unfolding store_encrypted
  first_alias svc c [] = pure none
  first_alias svc c (alias ∷ _) =
      if c.bucket == ""
      then (do
        r ← encrypt_credentials platform svc (of_garage (record c { bucket = alias }))
        store_encrypted r)
      else pure none

  bucket_stored : Service → GarageCredentials → Result GarageBucket → Action W Reply
  unfolding first_alias
  bucket_stored svc c (err e) = pure (bad_gateway "garage admin API" e)
  bucket_stored svc c (ok bucket) = do
    first_alias svc c bucket.global_aliases
    pure (bucket_reply 201 bucket)

  -- The body is the name; `none` where it does not decode.
  name_or_empty : Option String → String
  name_or_empty none = ""
  name_or_empty (some name) = name

  unfoldable pub create_bucket : Option ℕ → Option String → Action W Reply
  unfolding at_url bucket_stored name_or_empty
  create_bucket id body = garage_service id λ svc c.
      if name_or_empty body == "" then pure (failure 400 "bucket name required") else (do
        url ← garage_admin_url platform svc
        at_url url λ u. do
          r ← platform.create_bucket u c.admin_token (name_or_empty body)
          bucket_stored svc c r)

  bucket_deleted : Option Error → Reply
  bucket_deleted (some e) = bad_gateway "garage admin API" e
  bucket_deleted none = done 204

  unfoldable pub delete_bucket : Option ℕ → String → Action W Reply
  unfolding at_url bucket_deleted
  delete_bucket id bucket_id = garage_service id λ svc c.
      if bucket_id == "" then pure (failure 400 "bucket id required") else (do
        url ← garage_admin_url platform svc
        at_url url
            λ u. do r ← store.delete_bucket u c.admin_token bucket_id; pure (bucket_deleted r))
