-- ===== src/Webhook.antt =====
-- internal/server/server.go: the handler of GitHub's webhook, from the parsed request on. The
-- payloads are the types of internal/github/webhook.go with the fields that the handler reads; the
-- signature and the JSON are checked before, and where they fail the handler has `none`.
pub mod Guards
use Prim.Native.String.{len, slice}
use project_talos.Prelude.{
  ℕ, String, ◌<>◌, Bool, true, false, not, ◌&&◌, Option, none, some, ltb, ◌==◌, string_eq,
  if◌then◌else◌,
}
use project_talos.Domain.{App, Deploy, Error, Result, ok, err}
use project_talos.Action.{Action, pure, ◌>>=◌}
use project_talos.Engine.Interface.{Environment}
use project_talos.Engine.Request.{is_managed, deploy}
use project_talos.Engine.Queue.{is_talos_build}

pub record Repository : Type 0 where
  pub id : ℕ
  pub full_name : String

pub record Workflow : Type 0 where
  pub head_branch : String
  pub head_sha : String
  pub status : String
  pub conclusion : String

pub record WorkflowRunPayload : Type 0 where
  pub repository : Repository
  pub workflow : Workflow
  pub installation_id : ℕ

pub record PushPayload : Type 0 where
  pub ref : String
  pub after : String
  pub repository : Repository
  pub installation_id : ℕ

-- A verified request, by its event; `none` where the payload does not parse.
pub data Event : Type 0 where
  workflow_run : Option WorkflowRunPayload → Event
  installation : Option String → Event
  push : Option PushPayload → Event
  other_event : Event

-- The response's status, or a Go panic
pub data Response : Type 0 where
  status : ℕ → Response
  panicked : Response

-- The three lookups, as the app store answers them
pub record Lookups (W : Type 0) : Type 0 where
  pub by_installation_and_repo : ℕ → ℕ → Action W (Result App)
  pub by_github_repo_id : ℕ → Action W (Result App)
  pub by_name : String → Action W (Result App)

-- `strings.TrimPrefix(ref, "refs/heads/")`
unfoldable pub branch_of_ref : String → String
branch_of_ref ref = if slice ref 0 11 == "refs/heads/" then slice ref 11 (len ref) else ref

unfoldable pub image_ref_of : App → Repository → String → String
image_ref_of app repository head_sha =
    let sha = if ltb 7 (len head_sha) then slice head_sha 0 7 else head_sha in
    let registry = if app.registry_url == "" then "ghcr.io" else app.registry_url in
    registry <> "/" <> repository.full_name <> ":" <> sha

unfoldable pub workflow_deployed : Result (App × Deploy) → Response
workflow_deployed (ok _) = status 200
workflow_deployed (err _) = status 500

-- The last log line takes the first seven bytes of the commit.
unfoldable pub push_deployed : String → Result (App × Deploy) → Response
push_deployed after (err _) = status 500
push_deployed after (ok _) = if ltb (len after) 7 then panicked else status 200

module _ {W : Type 0} (lookups : Lookups W) where
  open lookups use {by_installation_and_repo, by_github_repo_id, by_name}

  -- An app that was found, or the next lookup
  unfoldable pub or_lookup : Action W (Result App) → Result App → Action W (Result App)
  or_lookup next (ok app) = pure (ok app)
  or_lookup next (err _) = next

  unfoldable pub find_by_ids : ℕ → ℕ → Action W (Result App)
  unfolding or_lookup
  find_by_ids installation_id repo_id = do
    r ← by_installation_and_repo installation_id repo_id
    or_lookup (by_github_repo_id repo_id) r

  unfoldable pub find_app : ℕ → Repository → Action W (Result App)
  unfolding find_by_ids
  find_app installation_id repository =
      let named = or_lookup (by_name repository.full_name) in
      if ltb 0 installation_id && ltb 0 repository.id
      then find_by_ids installation_id repository.id >>= named
      else if ltb 0 repository.id
      then by_github_repo_id repository.id >>= named
      else by_name repository.full_name

module _ {W : Type 0} (env : Environment W) (lookups : Lookups W) where
  unfoldable pub workflow_found : WorkflowRunPayload → Result App → Action W Response
  unfolding workflow_deployed
  workflow_found payload (err _) = pure (status 404)
  workflow_found payload (ok app) =
      if not (payload.workflow.head_branch == app.branch)
      then pure (status 200)
      else if not (is_managed app.app_type)
      then pure (status 200)
      else (do
        r ←
            deploy env app.id (image_ref_of app payload.repository payload.workflow.head_sha)
              payload.workflow.head_sha payload.workflow.head_branch "webhook"
        pure (workflow_deployed r))

  unfoldable pub handle_workflow_run : WorkflowRunPayload → Action W Response
  unfolding find_app workflow_found
  handle_workflow_run payload =
      if payload.workflow.status == "completed" && payload.workflow.conclusion == "success"
      then find_app lookups payload.installation_id payload.repository >>= workflow_found payload
      else pure (status 200)

  unfoldable pub push_found : PushPayload → Result App → Action W Response
  unfolding push_deployed
  push_found payload (err _) = pure (status 200)
  push_found payload (ok app) =
      if not (branch_of_ref payload.ref == app.branch)
      then pure (status 200)
      else if not (is_managed app.app_type)
      then pure (status 200)
      else if not (is_talos_build app.build_mode)
      then pure (status 200)
      else (do
        r ← deploy env app.id "" payload.after (branch_of_ref payload.ref) "push"
        pure (push_deployed payload.after r))

  unfoldable pub handle_push : PushPayload → Action W Response
  unfolding push_found find_app
  handle_push payload =
      find_app lookups payload.installation_id payload.repository >>= push_found payload

  unfoldable pub handle : Option Event → Action W Response
  unfolding handle_workflow_run handle_push
  handle none = pure (status 400)
  handle (some (workflow_run none)) = pure (status 400)
  handle (some (workflow_run (some payload))) = handle_workflow_run payload
  handle (some (installation none)) = pure (status 400)
  handle (some (installation (some _))) = pure (status 200)
  handle (some (push none)) = pure (status 400)
  handle (some (push (some payload))) = handle_push payload
  handle (some other_event) = pure (status 200)
