-- ===== src/Examples/DeployApi.antt =====
-- The theorem on the stream of a deploy's events, with a client that keeps what it is sent.
use project_talos.Prelude.{true, none, List, [], ◌∷◌, ◌++◌, ◌≡◌, refl}
use project_talos.Domain.{DeployEvent, DeployStatus, ok}
use project_talos.DeployApi.Stream.{
  Frame, deploy_event, status, keepalive, tick, event, ended, waiting, Streaming, subscribed,
}
use project_talos.DeployApi.Ended.{Client, next_event_ends}
use project_talos.Examples.Values.{first_deploy}

-- The frames, and the status of the deploy
abbrev Connection : Type 0
Connection = List Frame × DeployStatus

abbrev sent : Connection → List Frame
sent c = c.0

abbrev stored : Connection → DeployStatus
stored c = c.1

abbrev browser : Streaming Connection
browser = record {
  get_deploy = λ id c. (ok (record first_deploy { status = c.1 }), c);
  list_deploy_events = λ id c. (ok [], c);
  write = λ frame c. (none, (c.0 ++ frame ∷ [], c.1));
  flush = λ c. c;
  subscribe = λ id c. c;
  unsubscribe = λ id c. c;
  can_flush = true;
  has_events = true;
}

browser-Client : Client browser 7 sent stored
browser-Client = record {
  taken = λ f c. refl;
  write_shown = λ f c. refl;
  write_row = λ f c. refl;
  flush_shown = λ c. refl;
  flush_row = λ c. refl;
  subscribe_shown = λ c. refl;
  subscribe_row = λ c. refl;
  unsubscribe_shown = λ c. refl;
  query_found = λ c. (record first_deploy { status = c.1 }, refl, refl);
  query_shown = λ c. refl;
  query_row = λ c. refl;
}

abbrev last_event : DeployEvent
last_event = record {
  id = 9;
  deploy_id = 7;
  timestamp = 100;
  level = "info";
  step = "finalize";
  message = "deploy finished";
}

next_event_ends_example :
    ((subscribed browser 7 (tick ∷ event last_event ∷ []) ([], DeployStatus.success)).0 ≡ ended)
    × (sent (subscribed browser 7 (tick ∷ event last_event ∷ []) ([], DeployStatus.success)).1
        ≡ keepalive ∷ deploy_event last_event ∷ status "terminal" DeployStatus.success ∷ [])
    × ((subscribed browser 7 (tick ∷ []) ([], DeployStatus.success)).0 ≡ waiting)
    × (sent (subscribed browser 7 (tick ∷ []) ([], DeployStatus.success)).1 ≡ keepalive ∷ [])
next_event_ends_example =
    next_event_ends browser 7 sent stored browser-Client DeployStatus.success refl 1
      ([], DeployStatus.success) refl last_event []
