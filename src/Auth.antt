-- ===== src/Auth.antt =====
-- internal/auth/auth.go: users, passwords and session tokens. The store of users is the interface
-- `store.UserStore`; bcrypt, the HMAC, base64 and the conversions of numbers are libraries.
pub mod Sessions
pub mod Api
pub mod Served
pub mod Setup
use project_talos.Prelude.{
  ℕ, ◌+◌, String, ◌<>◌, Bool, not, Option, none, some, cut, ltb, ◌==◌, string_eq, if◌then◌else◌,
}
use project_talos.Domain.{User, Error, unauthorized, wrap, is_not_found, Result, ok, err}
use project_talos.Action.{Action, pure, ◌>>=◌}

-- `store.UserStore`
pub record Users (W : Type 0) : Type 0 where
  pub has_users : Action W (Result Bool)
  pub create_user : User → Action W (Result User)
  pub get_user_by_id : ℕ → Action W (Result User)
  pub get_user_by_username : String → Action W (Result User)

-- The libraries, and the service's fields
pub record Libraries (W : Type 0) : Type 0 where
  -- bcrypt; the salt is drawn from the world.
  pub hash_password : String → W → Result String
  pub check_password : String → String → Bool
  -- the HMAC of a payload with the service's secret, in base64
  pub sign : String → String
  -- base64.URLEncoding
  pub encode : String → String
  pub decode : String → Option String
  -- `%d`, and strconv.ParseInt with base 10 and 64 bits; a negative number is `none`, since no user
  -- has it and it is always in the past.
  pub format_int : ℕ → String
  pub parse_int : String → Option ℕ
  -- time.Now().Unix()
  pub now : W → ℕ
  -- in seconds
  pub max_age : ℕ

module _ {W : Type 0} (users : Users W) (libraries : Libraries W) where
  open users use {has_users, create_user, get_user_by_id, get_user_by_username}
  open libraries use {
    hash_password, check_password, sign, encode, decode, format_int, parse_int, now, max_age,
  }

  abbrev negated : Result Bool → Result Bool
  negated (err e) = err e
  negated (ok has) = ok (not has)

  unfoldable pub setup_required : Action W (Result Bool)
  setup_required = do r ← has_users; pure (negated r)

  abbrev new_user : String → String → User
  new_user username hash = record {
    id = 0;
    username = username;
    password_hash = hash;
    created_at = 0;
    updated_at = 0;
  }

  unfoldable pub hashed : String → Result String → Action W (Result User)
  hashed username (err e) = pure (err (wrap "hash password" e))
  hashed username (ok hash) = create_user (new_user username hash)

  -- `CreateUser`
  unfoldable pub register : String → String → Action W (Result User)
  unfolding hashed
  register username password w = hashed username (hash_password password w) w

  abbrev checked_password : String → Result User → Result User
  checked_password password (err e) = if is_not_found e then err unauthorized else err e
  checked_password password (ok user) =
      if check_password password user.password_hash then ok user else err unauthorized

  unfoldable pub authenticate : String → String → Action W (Result User)
  authenticate username password = do
    r ← get_user_by_username username
    pure (checked_password password r)

  abbrev pub payload_of : ℕ → ℕ → String
  payload_of id expires = format_int id <> (":" <> format_int expires)

  abbrev pub token_of : String → String
  token_of payload = encode payload <> ("." <> sign payload)

  unfoldable pub create_session : User → W → String
  create_session user w = token_of (payload_of user.id (now w + max_age))

  abbrev pub known : Result User → Result User
  known (err _) = err unauthorized
  known (ok user) = ok user

  unfoldable pub claimed : Option ℕ → Option ℕ → Action W (Result User)
  claimed (some id) (some expires) w =
      if ltb expires (now w)
      then (err unauthorized, w)
      else (let (r, w') = get_user_by_id id w in (known r, w'))
  claimed _ _ w = (err unauthorized, w)

  unfoldable pub verified : Option (String × String) → Action W (Result User)
  unfolding claimed
  verified none w = (err unauthorized, w)
  verified (some (id, expires)) w = claimed (parse_int id) (parse_int expires) w

  unfoldable pub decoded : String → Option String → Action W (Result User)
  unfolding verified
  decoded signature none w = (err unauthorized, w)
  decoded signature (some payload) w =
      if signature == sign payload then verified (cut b':' payload) w else (err unauthorized, w)

  unfoldable pub parts_of : Option (String × String) → Action W (Result User)
  unfolding decoded
  parts_of none w = (err unauthorized, w)
  parts_of (some (encoded, signature)) w = decoded signature (decode encoded) w

  -- `ValidateSession`
  unfoldable pub validate_session : String → Action W (Result User)
  unfolding parts_of
  validate_session token w = parts_of (cut b'.' token) w
