-- ===== src/Auth/Api.antt =====
-- internal/server/handlers/auth.go and the middleware of internal/server/middleware.go. A request's
-- body comes decoded: `none` where the decoding fails.
use Prim.Native.String.{len}
use project_talos.Prelude.{
  ℕ, String, Bool, true, false, ◌||◌, Option, none, some, ltb, ◌==◌, string_eq, if◌then◌else◌,
}
use project_talos.Domain.{User, Error, unauthorized, wrap, Result, ok, err}
use project_talos.Action.{Action, pure, ◌>>=◌}
use project_talos.Auth.{
  Users, Libraries, setup_required, register, authenticate, create_session, validate_session,
}

-- The status, what the body shows and what becomes of the session's cookie
pub data Reply : Type 0 where
  failure : ℕ → String → Reply
  -- the cookie is taken away
  session_cleared : ℕ → Reply
  redirected : (clears_session : Bool) → String → Reply
  signed_in : ℕ → String → (token : String) → Reply
  setup_status : Bool → Reply
  user_shown : String → Reply
  logged_out : Reply

-- `setupRequest` and `loginRequest`
pub record Login : Type 0 where
  pub username : String
  pub password : String

-- `errors.Is(err, ErrUnauthorized)`
abbrev is_unauthorized : Error → Bool
is_unauthorized unauthorized = true
is_unauthorized (wrap _ e) = is_unauthorized e
is_unauthorized _ = false

module _ {W : Type 0} (users : Users W) (libraries : Libraries W) where
  abbrev shown_status : Result Bool → Reply
  shown_status (err _) = failure 500 "failed to check setup status"
  shown_status (ok required) = setup_status required

  unfoldable pub get_setup_status : Action W Reply
  get_setup_status = do r ← setup_required users libraries; pure (shown_status r)

  abbrev session_of : User → W → String
  session_of = create_session users libraries

  unfoldable pub signed_up : Result User → Action W Reply
  signed_up (err _) w = (failure 500 "failed to create user", w)
  signed_up (ok user) w = (signed_in 201 user.username (session_of user w), w)

  unfoldable pub setup_valid : Login → Action W Reply
  unfolding signed_up
  setup_valid req =
      if req.username == "" || req.password == ""
      then pure (failure 400 "username and password are required")
      else if ltb (len req.password) 8
      then pure (failure 400 "password must be at least 8 characters")
      else do r ← register users libraries req.username req.password; signed_up r

  unfoldable pub setup_decoded : Option Login → Action W Reply
  unfolding setup_valid
  setup_decoded none = pure (failure 400 "invalid request body")
  setup_decoded (some req) = setup_valid req

  unfoldable pub setup_allowed : Option Login → Result Bool → Action W Reply
  unfolding setup_decoded
  setup_allowed req (err _) = pure (failure 500 "failed to check setup status")
  setup_allowed req (ok false) = pure (failure 409 "admin account already exists")
  setup_allowed req (ok true) = setup_decoded req

  -- `Setup`
  unfoldable pub setup : Option Login → Action W Reply
  unfolding setup_allowed
  setup req = do r ← setup_required users libraries; setup_allowed req r

  unfoldable pub logged_in : Result User → Action W Reply
  logged_in (err e) w = (
    if is_unauthorized e
        then failure 401 "invalid credentials"
        else failure 500 "authentication failed",
    w,
  )
  logged_in (ok user) w = (signed_in 200 user.username (session_of user w), w)

  unfoldable pub login : Option Login → Action W Reply
  unfolding logged_in
  login none = pure (failure 400 "invalid request body")
  login (some req) = do r ← authenticate users libraries req.username req.password; logged_in r

  abbrev logout : Action W Reply
  logout = pure logged_out

  -- `Me`, with the user that the middleware put into the context
  abbrev me : Option User → Reply
  me none = failure 401 "not authenticated"
  me (some user) = user_shown user.username

  unfoldable pub admitted : (User → Action W Reply) → Result User → Action W Reply
  admitted next (err _) = pure (session_cleared 401)
  admitted next (ok user) = next user

  -- `AuthMiddleware`, on the session's cookie
  unfoldable pub auth_middleware : (User → Action W Reply) → Option String → Action W Reply
  unfolding admitted
  auth_middleware next none = pure (failure 401 "unauthorized")
  auth_middleware next (some cookie) = do
    r ← validate_session users libraries cookie
    admitted next r

  unfoldable pub web_admitted : (User → Action W Reply) → Result User → Action W Reply
  web_admitted next (err _) = pure (redirected true "/login")
  web_admitted next (ok user) = next user

  -- `WebAuthMiddleware`
  unfoldable pub web_auth_middleware : (User → Action W Reply) → Option String → Action W Reply
  unfolding web_admitted
  web_auth_middleware next none = pure (redirected false "/login")
  web_auth_middleware next (some cookie) = do
    r ← validate_session users libraries cookie
    web_admitted next r
