-- ===== src/Auth/Served.antt =====
-- internal/server/middleware.go: which requests reach the handlers.
use project_talos.Prelude.{String, ◌≡◌, refl, Option, none, some, inl, inr, ◌⊎◌}
use project_talos.Domain.{User, Result, ok, err}
use project_talos.Action.{Action, pure, ◌>>=◌}
use project_talos.Auth.{Users, Libraries, validate_session}
use project_talos.Auth.Sessions.{IsSigned, validated-IsSigned}
use project_talos.Auth.Api.{
  Reply, failure, session_cleared, redirected, admitted, auth_middleware, web_admitted,
  web_auth_middleware,
}

abbrev pub IsRefusal : Reply → Type 0
IsRefusal (failure status _) = status ≡ 401
IsRefusal (session_cleared status) = status ≡ 401
IsRefusal (redirected _ target) = target ≡ "/login"
IsRefusal _ = ⊥

module _ {W : Type 0} (users : Users W) (libraries : Libraries W) where
  -- The world after the look at a request's cookie
  abbrev pub after_look : Option String → W → W
  after_look none w = w
  after_look (some token) w = (validate_session users libraries token w).1

  -- The reply is a refusal, and nothing but the look at the cookie was done.
  abbrev pub IsRefused : Option String → W → Reply × W → Type 0
  IsRefused cookie w (reply, w') = IsRefusal reply × (w' ≡ after_look cookie w)

  -- The handler `next` ran for the user of the cookie's token, and made the reply.
  abbrev pub IsServed : (User → Action W Reply) → Option String → W → Reply × W → Type 0
  IsServed next cookie w r =
      (token : String) × (user : User) × (cookie ≡ some token)
      × IsSigned users libraries token w user
      × (r ≡ next user (after_look cookie w))

  abbrev pub IsGuarded : (User → Action W Reply) → Option String → W → Reply × W → Type 0
  IsGuarded next cookie w r = IsRefused cookie w r ⊎ IsServed next cookie w r

  served :
      (next : User → Action W Reply) (token : String) (w : W) (user : User)
      → (validate_session users libraries token w).0 ≡ ok user
      → IsServed next (some token) w (next user (validate_session users libraries token w).1)
  served next token w user h =
      (token, user, refl, validated-IsSigned users libraries token w user h, refl)

  admitted-IsGuarded :
      (next : User → Action W Reply) (token : String) (w : W) (r : Result User)
      → (validate_session users libraries token w).0 ≡ r
      → IsGuarded next
          (some token)
          w
          (admitted users libraries next r (validate_session users libraries token w).1)
        × IsGuarded next
            (some token)
            w
            (web_admitted users libraries next r (validate_session users libraries token w).1)
  unfolding admitted web_admitted pure
  admitted-IsGuarded next token w (err e) h = (inl (refl, refl), inl (refl, refl))
  admitted-IsGuarded next token w (ok user) h =
      (inr (served next token w user h), inr (served next token w user h))

  -- A request passes a middleware only with a cookie whose token is signed, names a user of the
  -- table and is in time, and the handler runs for that user and makes the reply and every change; any
  -- other request is answered with 401 or sent to the login page, and the handler does not run.
  pub only_sessions_served :
      (next : User → Action W Reply) (cookie : Option String) (w : W)
      → IsGuarded next cookie w (auth_middleware users libraries next cookie w)
        × IsGuarded next cookie w (web_auth_middleware users libraries next cookie w)
  unfolding auth_middleware web_auth_middleware pure ◌>>=◌
  only_sessions_served next none w = (inl (refl, refl), inl (refl, refl))
  only_sessions_served next (some token) w =
      admitted-IsGuarded next token w (validate_session users libraries token w).0 refl
