-- ===== src/DeployApi/Stream.antt =====
-- internal/server/handlers/deploy.go: `StreamEvents`, the events of a deploy as they come.
use project_talos.Prelude.{ℕ, String, Bool, not, Option, none, some, List, [], ◌∷◌, if◌then◌else◌}
use project_talos.Domain.{
  Deploy, DeployEvent, DeployStatus, Error, Result, ok, err, is_not_found, is_terminal,
}
use project_talos.Action.{Action, pure, ◌>>=◌}

-- What is written to the client: an event, a status (its state and the deploy's), or a comment that
-- keeps the connection alive
pub data Frame : Type 0 where
  deploy_event : DeployEvent → Frame
  status : String → DeployStatus → Frame
  keepalive : Frame

-- What the `select` picks: the client has gone, the ticker, an event of the subscription, or its closing
pub data Signal : Type 0 where
  gone tick closed : Signal
  event : DeployEvent → Signal

pub data Outcome : Type 0 where
  refused : ℕ → String → Outcome
  ended waiting : Outcome

pub record Streaming (W : Type 0) : Type 0 where
  pub get_deploy : ℕ → Action W (Result Deploy)
  pub list_deploy_events : ℕ → Action W (Result (List DeployEvent))
  -- `writeSSEEvent`, and the write of a comment
  pub write : Frame → Action W (Option Error)
  pub flush : W → W
  pub subscribe : ℕ → W → W
  pub unsubscribe : ℕ → W → W
  -- whether the response can be flushed, and whether the handler has a broadcaster
  pub can_flush : Bool
  pub has_events : Bool

module _ {W : Type 0} (streaming : Streaming W) (deploy_id : ℕ) where
  open streaming use {
    get_deploy, list_deploy_events, write, flush, subscribe, unsubscribe, can_flush, has_events,
  }

  -- A write, and what follows unless it failed
  unfoldable pub after_write : Frame → Action W Outcome → Action W Outcome
  after_write frame next = do e ← write frame; elim e [ none ↦ next | some _ ↦ pure ended ]

  unfoldable pub after_flush : Action W Outcome → Action W Outcome
  after_flush next w = next (flush w)

  -- The status of a deploy that has ended is the last frame.
  unfoldable pub last_status : Deploy → Action W Outcome
  unfolding after_write after_flush
  last_status d = after_write (status "terminal" d.status) (after_flush (pure ended))

  unfoldable pub after_event : Result Deploy → Action W Outcome → Action W Outcome
  unfolding last_status after_flush
  after_event (err e) next = pure ended
  after_event (ok d) next = if is_terminal d.status then last_status d else after_flush next

  unfoldable pub loop : List Signal → Action W Outcome
  unfolding after_write after_flush after_event
  loop [] = pure waiting
  loop (gone ∷ signals) = pure ended
  loop (closed ∷ signals) = pure ended
  loop (tick ∷ signals) = after_write keepalive (after_flush (loop signals))
  loop (event e ∷ signals) =
      after_write (deploy_event e) (do r ← get_deploy deploy_id; after_event r (loop signals))

  -- `defer unsubscribe()`
  unfoldable pub leaving : Outcome → Action W Outcome
  leaving waiting w = (waiting, w)
  leaving outcome w = (outcome, unsubscribe deploy_id w)

  unfoldable pub subscribed : List Signal → Action W Outcome
  unfolding loop leaving
  subscribed signals w =
      let (outcome, w') = loop signals (subscribe deploy_id w) in leaving outcome w'

  unfoldable pub connected : Deploy → List Signal → Action W Outcome
  unfolding after_write after_flush subscribed
  connected d signals = after_write (status "connected" d.status) (
      after_flush (
        if is_terminal d.status
        then (do _ ← write (status "terminal" d.status); after_flush (pure ended))
        else if not has_events
        then pure ended
        else subscribed signals))

  unfoldable pub written_events : List DeployEvent → Action W Outcome → Action W Outcome
  unfolding after_write
  written_events [] next = next
  written_events (e ∷ events) next = after_write (deploy_event e) (written_events events next)

  with_events : Deploy → List Signal → Result (List DeployEvent) → Action W Outcome
  unfolding written_events connected
  with_events d signals (err e) = pure (refused 500 "failed to list events")
  with_events d signals (ok events) = written_events events (connected d signals)

  unfoldable pub with_deploy : List Signal → Result Deploy → Action W Outcome
  unfolding with_events
  with_deploy signals (err e) =
      if is_not_found e
      then pure (refused 404 "deploy not found")
      else pure (refused 500 "failed to get deploy")
  with_deploy signals (ok d) =
      if can_flush
      then (do r ← list_deploy_events deploy_id; with_events d signals r)
      else pure (refused 500 "streaming not supported")

module _ {W : Type 0} (streaming : Streaming W) where
  unfoldable pub stream_events : Option ℕ → List Signal → Action W Outcome
  unfolding with_deploy
  stream_events none signals = pure (refused 400 "invalid deploy id")
  stream_events (some deploy_id) signals = do
    r ← streaming.get_deploy deploy_id
    with_deploy streaming deploy_id signals r
