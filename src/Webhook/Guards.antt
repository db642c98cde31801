-- ===== src/Webhook/Guards.antt =====
-- internal/server/server.go: which webhooks start a deploy.
use project_talos.Prelude.{◌≡◌, string_eq}
use project_talos.Domain.{App, AppType, BuildMode}
use project_talos.Webhook.{WorkflowRunPayload, PushPayload, branch_of_ref}

-- The app is to be built on a push to its branch.
abbrev pub WantsPush : App → PushPayload → Type 0
WantsPush app payload =
    (branch_of_ref payload.ref ≡ app.branch)
    × (app.app_type ≡ AppType.managed)
    × (app.build_mode ≡ BuildMode.talos_build)

-- The app is to be deployed after a workflow on its branch.
abbrev pub WantsRun : App → WorkflowRunPayload → Type 0
WantsRun app payload =
    (payload.workflow.head_branch ≡ app.branch) × (app.app_type ≡ AppType.managed)
