-- ===== src/DeployApi.antt =====
-- internal/server/handlers/deploy.go: the API of the deploys, and the stream of a deploy's events. The
-- path and the body of a request come decoded, `none` where the decoding fails. What the stream's
-- `select` picks is a list of signals; where the list ends, the stream goes on waiting.
pub mod Stream
pub mod Ended
use project_talos.Prelude.{
  ℕ, String, Bool, true, false, ◌||◌, Option, none, some, List, [], ◌∷◌, ◌==◌, string_eq,
  if◌then◌else◌,
}
use project_talos.Domain.{
  Deploy, DeployEvent, Error, Result, ok, err, is_not_found, is_deploy_in_progress,
}
use project_talos.Action.{Action, pure, ◌>>=◌}

pub record TriggerDeployRequest : Type 0 where
  pub image_ref : String
  pub commit_sha : String
  pub branch : String

-- The deploys' store and the engine, as the handlers call them
pub record DeployServer (W : Type 0) : Type 0 where
  pub list_deploys : ℕ → ℕ → Action W (Result (List Deploy))
  pub get_deploy : ℕ → Action W (Result Deploy)
  pub list_deploy_events : ℕ → Action W (Result (List DeployEvent))
  pub engine_deploy : ℕ → String → String → String → String → Action W (Result Deploy)
  pub engine_rollback : ℕ → Action W (Result Deploy)

-- The status, and what the body shows; events are rendered as HTML for an HTMX request.
pub data Answer : Type 0 where
  failed : ℕ → String → Answer
  deploys_answer : ℕ → List Deploy → Answer
  deploy_answer : ℕ → Deploy → Answer
  events_answer : List DeployEvent → Answer
  events_html : List DeployEvent → Answer

module _ {W : Type 0} (server : DeployServer W) where
  open server use {list_deploys, get_deploy, list_deploy_events, engine_deploy, engine_rollback}

  listed_deploys : Result (List Deploy) → Answer
  listed_deploys (err e) = failed 500 "failed to list deploys"
  listed_deploys (ok deploys) = deploys_answer 200 deploys

  unfoldable pub list : Option ℕ → Action W Answer
  unfolding listed_deploys
  list none = pure (failed 400 "invalid app id")
  list (some app_id) = do r ← list_deploys app_id 20; pure (listed_deploys r)

  unfoldable pub missing_deploy : Error → Answer
  missing_deploy e =
      if is_not_found e then failed 404 "deploy not found" else failed 500 "failed to get deploy"

  got_deploy : Result Deploy → Answer
  unfolding missing_deploy
  got_deploy (err e) = missing_deploy e
  got_deploy (ok d) = deploy_answer 200 d

  unfoldable pub get_one : Option ℕ → Action W Answer
  unfolding got_deploy
  get_one none = pure (failed 400 "invalid deploy id")
  get_one (some id) = do r ← get_deploy id; pure (got_deploy r)

  triggered : Result Deploy → Answer
  triggered (err e) =
      if is_deploy_in_progress e
      then failed 409 "deploy already in progress"
      else failed 500 "failed to trigger deploy"
  triggered (ok d) = deploy_answer 202 d

  trigger_app : ℕ → Option TriggerDeployRequest → Action W Answer
  unfolding triggered
  trigger_app app_id none = pure (failed 400 "invalid request body")
  trigger_app app_id (some req) =
      if req.image_ref == "" || req.branch == ""
      then pure (failed 400 "image_ref and branch are required")
      else do
        r ← engine_deploy app_id req.image_ref req.commit_sha req.branch "manual"
        pure (triggered r)

  unfoldable pub trigger : Option ℕ → Option TriggerDeployRequest → Action W Answer
  unfolding trigger_app
  trigger none body = pure (failed 400 "invalid app id")
  trigger (some app_id) body = trigger_app app_id body

  rolled_back : Result Deploy → Answer
  rolled_back (err e) = failed 500 "failed to rollback"
  rolled_back (ok d) = deploy_answer 202 d

  unfoldable pub roll_back : Option ℕ → Action W Answer
  unfolding rolled_back
  roll_back none = pure (failed 400 "invalid app id")
  roll_back (some app_id) = do r ← engine_rollback app_id; pure (rolled_back r)

  shown_events : Bool → Result (List DeployEvent) → Answer
  shown_events htmx (err e) = failed 500 "failed to list events"
  shown_events htmx (ok events) = if htmx then events_html events else events_answer events

  -- The flag says that the header `HX-Request` is `true`.
  unfoldable pub list_events : Option ℕ → Bool → Action W Answer
  unfolding shown_events
  list_events none htmx = pure (failed 400 "invalid deploy id")
  list_events (some deploy_id) htmx = do
    r ← list_deploy_events deploy_id
    pure (shown_events htmx r)
