-- ===== src/Examples/Webhook.antt =====
-- The webhook of the repository of the app `shop`.
use project_talos.Prelude.{String, List}
use project_talos.Domain.{not_found, ok, err}
use project_talos.Webhook.{Lookups, WorkflowRunPayload, PushPayload, status}
use project_talos.Examples.Values.{shop}

abbrev lookups : Lookups (List String)
lookups = record {
  by_installation_and_repo = λ i r w. (ok shop, w);
  by_github_repo_id = λ r w. (err not_found, w);
  by_name = λ n w. (err not_found, w);
}

abbrev pushed : PushPayload
pushed = record {
  ref = "refs/heads/main";
  after = "0123456789abcdef";
  repository = record { id = 5; full_name = "acme/shop" };
  installation_id = 9;
}

abbrev run : WorkflowRunPayload
run = record {
  repository = record { id = 5; full_name = "acme/shop" };
  workflow = record {
    head_branch = "main";
    head_sha = "0123456789abcdef";
    status = "completed";
    conclusion = "success";
  };
  installation_id = 9;
}
