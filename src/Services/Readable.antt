-- ===== src/Services/Readable.antt =====
-- internal/services/provisioner.go: the bucket of a new Garage service leaves its stored credentials
-- readable.
use project_talos.Prelude.{String, ◌≡◌, refl, subst, Option, none, some, string_eq}
use project_talos.Domain.{Error, Result, ok, err}
use project_talos.Domain.Service.{
  Service, Credentials, of_postgres, of_mysql, of_redis, of_garage, of_garage_webui,
  GarageCredentials,
}
use project_talos.Action.{Action, pure, ◌>>=◌}
use project_talos.Action.Triples.{Triple, Triple-pure, Triple-if, after, Keeps}
use project_talos.Services.{GarageBucket, Platform}
use project_talos.Services.Garage.{
  stored_bucket, bucket_created, garage_ready, url_found, bucket_for, encrypted_into,
  encrypt_credentials, auto_create_bucket,
}

-- What is encrypted is decrypted again.
abbrev pub Decrypts : {W : Type 0} → Platform W → Type 0
Decrypts {W} platform =
    (text stored : String) (w : W)
    → (platform.encrypt text w).0 ≡ ok stored
    → platform.decrypt stored ≡ ok text

abbrev pub Anywhere : {W : Type 0} → Platform W → W → Type 0
Anywhere platform w = Unit

pub anything :
    {W : Type 0} (platform : Platform W) {A : Type 0} (m : Action W A) → Keeps (Anywhere platform) m
anything platform m = record { at = λ w q. tt }

-- Only the credentials may be stored anew, and they are as readable as before.
abbrev pub Restored : {W : Type 0} → Platform W → Credentials → Service → Service → W → Type 0
Restored platform creds svc svc' w =
    (text : String) × (svc' ≡ record svc { credentials = text })
    × (platform.decrypt text ≡ ok (platform.marshal creds))

unfoldable pub Readable : {W : Type 0} → Platform W → Credentials → Service → Type 0
Readable platform creds svc = platform.decrypt svc.credentials ≡ ok (platform.marshal creds)

module _ {W : Type 0} (platform : Platform W) (decrypts : Decrypts platform)
    (creds : Credentials) where
  open platform use {decrypt, marshal}

  unchanged :
      (svc : Service)
      → decrypt svc.credentials ≡ ok (marshal creds)
      → Triple (Anywhere platform) (pure svc) (Restored platform creds svc)
  unchanged svc d = Triple-pure svc (λ w q. (svc.credentials, refl, d))

  encrypt-Restored :
      (svc : Service) (w : W) (r : Result String)
      → Readable platform creds svc
      → (platform.encrypt (marshal creds) w).0 ≡ r
      → Triple
          (Anywhere platform)
          (stored_bucket platform svc (encrypted_into platform svc r))
          (Restored platform creds svc)
  unfolding stored_bucket encrypted_into Readable
  encrypt-Restored svc w (err e) d h = unchanged svc d
  encrypt-Restored svc w (ok text) d h =
      after _ _ (anything platform _)
        λ _. Triple-pure _ (λ v q. (text, refl, decrypts (marshal creds) text w h))

  encrypt_credentials-Restored :
      (svc : Service)
      → Readable platform creds svc
      → Triple
          (Anywhere platform)
          (encrypt_credentials platform svc creds >>= stored_bucket platform svc)
          (Restored platform creds svc)
  unfolding encrypt_credentials ◌>>=◌ pure
  encrypt_credentials-Restored svc d = record {
    at = λ w q. (encrypt-Restored svc w (platform.encrypt (marshal creds) w).0 d refl).at _ q;
  }

  bucket_created-Restored :
      (svc : Service) (c : GarageCredentials) (r : Result GarageBucket)
      → creds ≡ of_garage c
      → Readable platform creds svc
      → Triple (Anywhere platform) (bucket_created platform svc c r) (Restored platform creds svc)
  unfolding bucket_created Readable
  bucket_created-Restored svc c (err e) g d = unchanged svc d
  bucket_created-Restored svc c (ok bucket) g d = Triple-if _ _ _ (unchanged svc d) (
      subst
        (λ x.
          Triple (Anywhere platform)
            (encrypt_credentials platform svc x >>= stored_bucket platform svc)
            (Restored platform creds svc))
        g (encrypt_credentials-Restored svc d))

  garage_ready-Restored :
      (svc : Service) (c : GarageCredentials) (url : String) (r : Option Error)
      → creds ≡ of_garage c
      → Readable platform creds svc
      → Triple (Anywhere platform) (garage_ready platform svc c url r) (Restored platform creds svc)
  unfolding garage_ready Readable
  garage_ready-Restored svc c url (some e) g d = unchanged svc d
  garage_ready-Restored svc c url none g d = after _ _ (anything platform _) λ _.
      after _ _ (anything platform _) λ _.
        after _ _ (anything platform _)
          λ _. after _ _ (anything platform _) λ r. bucket_created-Restored svc c r g d

  url_found-Restored :
      (svc : Service) (c : GarageCredentials) (r : Result String)
      → creds ≡ of_garage c
      → Readable platform creds svc
      → Triple (Anywhere platform) (url_found platform svc c r) (Restored platform creds svc)
  unfolding url_found Readable
  url_found-Restored svc c (err e) g d = unchanged svc d
  url_found-Restored svc c (ok url) g d =
      after _ _ (anything platform _) λ r. garage_ready-Restored svc c url r g d

  bucket_for-Restored :
      (svc : Service) (x : Credentials)
      → creds ≡ x
      → Readable platform creds svc
      → Triple (Anywhere platform) (bucket_for platform svc x) (Restored platform creds svc)
  unfolding bucket_for Readable
  bucket_for-Restored svc (of_garage c) g d =
      Triple-if _ _ _ (after _ _ (anything platform _) λ r. url_found-Restored svc c r g d)
        (unchanged svc d)
  bucket_for-Restored svc (of_postgres c) g d = unchanged svc d
  bucket_for-Restored svc (of_mysql c) g d = unchanged svc d
  bucket_for-Restored svc (of_redis c) g d = unchanged svc d
  bucket_for-Restored svc (of_garage_webui c) g d = unchanged svc d

  pub auto_create_bucket-Restored :
      (svc : Service)
      → Readable platform creds svc
      → Triple
          (Anywhere platform)
          (auto_create_bucket platform svc creds)
          (Restored platform creds svc)
  unfolding auto_create_bucket Readable
  auto_create_bucket-Restored svc d =
      Triple-if _ _ _ (bucket_for-Restored svc creds refl d) (unchanged svc d)
