-- ===== src/Services/Generators.antt =====
-- internal/services/provisioner.go: passwords, keys, names and default credentials. The source of
-- randomness is a parameter; `none` is the panic of an index out of range.
use Prim.Native.Char.{Char, code}
use Prim.Native.String.{len, slice}
use project_talos.Prelude.{
  ℕ, zero, suc, ◌<◌, String, ◌<>◌, ◌≡◌, refl, ap, true, Option, none, some, has_char, ltb, nat_eq,
  string_eq, if◌then◌else◌, arith,
}
use project_talos.Domain.Service.{
  ServiceType, postgres, mysql, redis, garage, garage_webui, other, Credentials, of_postgres,
  of_mysql, of_redis, of_garage, of_garage_webui,
}
use project_talos.Action.{Action, pure, ◌>>=◌}
use project_talos.Services.Container.{type_text}

abbrev pub count : String → ℕ
count String.[] = 0
count (String.◌∷◌ _ s) = suc (count s)

abbrev pub char_at : String → ℕ → Option Char
char_at String.[] i = none
char_at (String.◌∷◌ c s) zero = some c
char_at (String.◌∷◌ c s) (suc i) = char_at s i

abbrev pub password_chars : String
password_chars = "abcdefghijklmnopqrstuvwxyzABCDEFGHIJKLMNOPQRSTUVWXYZ0123456789-_.~"

abbrev pub key_chars : String
key_chars = "ABCDEFGHIJKLMNOPQRSTUVWXYZ0123456789"

abbrev pub name_chars : String
name_chars = "abcdefghijklmnopqrstuvwxyz0123456789"

-- `crypto/rand`: an integer below the argument, and 32 bytes in hexadecimal
pub record Random (W : Type 0) : Type 0 where
  pub int : ℕ → Action W ℕ
  pub hex_bytes : ℕ → Action W String

abbrev prepend : Option Char → Option String → Option String
prepend (some c) (some s) = some (String.◌∷◌ c s)
prepend _ _ = none

module _ {W : Type 0} (random : Random W) where
  -- The loop of the generators over the places of the result
  unfoldable pub generate : String → ℕ → Action W (Option String)
  generate chars zero = pure (some "")
  generate chars (suc n) = do
    i ← random.int (count chars)
    rest ← generate chars n
    pure (prepend (char_at chars i) rest)

  unfoldable pub generate_password : ℕ → Action W (Option String)
  generate_password length = generate password_chars length

  unfoldable pub generate_access_key : ℕ → Action W (Option String)
  generate_access_key length = generate key_chars length

  -- `GenerateServiceName`
  unfoldable pub generate_service_name : ServiceType → Action W (Option String)
  generate_service_name type = do
    suffix ← generate name_chars 4
    let text = type_text type
    let prefix = if ltb 4 (len text) then slice text 0 4 else text
    pure (elim suffix [ none ↦ none | some s ↦ some (prefix <> "-" <> s) ])

  garage_credentials :
      String → String → Option String → Option String → Option String → Option Credentials
  garage_credentials container secret (some key) (some secret_key) (some token) = some (
      of_garage (record {
        endpoint = "http://" <> container <> ":3900";
        region = "garage";
        access_key = key;
        secret_key = secret_key;
        bucket = "";
        admin_token = token;
        rpc_secret = secret;
      }))
  garage_credentials container secret _ _ _ = none

  abbrev with_password : (String → Credentials) → Option String → Option Credentials
  with_password f none = none
  with_password f (some password) = some (f password)

  -- `DefaultCredentials`; the outer `none` is a panic, the inner one the nil of an unknown type.
  unfoldable pub default_credentials : ServiceType → String → Action W (Option Credentials)
  unfolding garage_credentials
  default_credentials postgres container = do
    password ← generate_password 24
    pure (
        with_password
          (λ pw. of_postgres (record {
            host = container;
            port = 5432;
            database = "app";
            user = "postgres";
            password = pw;
          }))
          password)
  default_credentials mysql container = do
    password ← generate_password 24
    pure (
        with_password
          (λ pw. of_mysql (record {
            host = container;
            port = 3306;
            database = "app";
            user = "mysql";
            password = pw;
          }))
          password)
  default_credentials redis container = do
    password ← generate_password 24
    pure (
        with_password (λ pw. of_redis (record { host = container; port = 6379; password = pw }))
          password)
  default_credentials garage container = do
    secret ← random.hex_bytes 32
    key ← generate_access_key 20
    secret_key ← generate_password 40
    token ← generate_password 32
    pure (garage_credentials container secret key secret_key token)
  default_credentials garage_webui container = do
    password ← generate_password 16
    pure (
        with_password
          (λ pw. of_garage_webui (record {
            admin_api_url = "http://talos-svc-" <> container <> ":3903";
            s3_endpoint = "http://talos-svc-" <> container <> ":3900";
            admin_key = "";
            username = "admin";
            password = pw;
          }))
          password)
  default_credentials (other _) container = pure none

  -- The random integer is below the bound that was asked for.
  abbrev pub IsBelow : Type 0
  IsBelow = (n : ℕ) (w : W) → 0 < n → (random.int n w).0 < n

  abbrev pub AllFrom : String → String → Type 0
  AllFrom chars String.[] = Unit
  AllFrom chars (String.◌∷◌ c s) = (has_char (code c) chars ≡ true) × AllFrom chars s

  char_at-lt :
      (chars : String) (i : ℕ)
      → i < count chars
      → (c : Char) × (char_at chars i ≡ some c) × (has_char (code c) chars ≡ true)
  char_at-lt String.[] i h = absurd (omega (arith, h))
  char_at-lt (String.◌∷◌ c s) zero h = (c, refl, ground arith)
  char_at-lt (String.◌∷◌ c s) (suc i) h =
      let (d, e, k) = char_at-lt s i (omega (arith, h)) in (d, e, ground (arith, k))

  -- A text of the given length, all of whose characters are from `chars`
  abbrev pub IsDrawn : String → ℕ → Option String → Type 0
  IsDrawn chars n r = (s : String) × (r ≡ some s) × (count s ≡ n) × AllFrom chars s

  -- With a source of integers below their bound, no generator reads its characters out of range:
  -- from characters that are not empty, every length gives a text of that length, made of the
  -- characters.
  pub generated_in_range :
      IsBelow
      → (chars : String) → 0 < count chars
      → (n : ℕ) (w : W) → IsDrawn chars n (generate chars n w).0
  unfolding generate ◌>>=◌ pure
  generated_in_range below chars pos zero w = ("", refl, refl, tt)
  generated_in_range below chars pos (suc n) w =
      let (c, e, k) = char_at-lt chars (random.int (count chars) w).0 (below (count chars) w pos) in
      let (s, f, l, a) = generated_in_range below chars pos n (random.int (count chars) w).1 in
      (String.◌∷◌ c s, rw (e) (rw (f) refl), ap suc l, (k, a))
