-- ===== src/DeployApi/Ended.antt =====
-- When the stream of a deploy that has ended ends.
use project_talos.Prelude.{
  ℕ, zero, suc, true, none, List, [], ◌∷◌, ◌++◌, ◌≡◌, refl, ap, subst, ◌∙◌, sym, append_assoc,
  append-nil,
}
use project_talos.Domain.{Deploy, DeployEvent, DeployStatus, Result, ok, is_terminal}
use project_talos.Action.{Action, pure, ◌>>=◌}
use project_talos.DeployApi.Stream.{
  Frame, deploy_event, status, keepalive, Signal, tick, event, Outcome, refused, ended, waiting,
  Streaming, after_write, after_flush, after_event, last_status, loop, leaving, subscribed,
}

-- A client that reads on, and a store: `shown` is what the client has been sent, `row` the status of
-- the deploy. A write that the client takes appends its frame, a query answers with the row, and
-- none of the calls changes the row.
pub record Client {W : Type 0} (streaming : Streaming W) (deploy_id : ℕ) (shown : W → List Frame)
    (row : W → DeployStatus) : Type 0 where
  pub taken : (f : Frame) (w : W) → (streaming.write f w).0 ≡ none
  pub write_shown : (f : Frame) (w : W) → shown (streaming.write f w).1 ≡ shown w ++ f ∷ []
  pub write_row : (f : Frame) (w : W) → row (streaming.write f w).1 ≡ row w
  pub flush_shown : (w : W) → shown (streaming.flush w) ≡ shown w
  pub flush_row : (w : W) → row (streaming.flush w) ≡ row w
  pub subscribe_shown : (w : W) → shown (streaming.subscribe deploy_id w) ≡ shown w
  pub subscribe_row : (w : W) → row (streaming.subscribe deploy_id w) ≡ row w
  pub unsubscribe_shown : (w : W) → shown (streaming.unsubscribe deploy_id w) ≡ shown w
  pub query_found :
      (w : W) → (d : Deploy) × ((streaming.get_deploy deploy_id w).0 ≡ ok d) × (d.status ≡ row w)
  pub query_shown : (w : W) → shown (streaming.get_deploy deploy_id w).1 ≡ shown w
  pub query_row : (w : W) → row (streaming.get_deploy deploy_id w).1 ≡ row w

-- A number of ticks before other signals, and the comments that they send
abbrev pub ticks : ℕ → List Signal → List Signal
ticks zero signals = signals
ticks (suc n) signals = tick ∷ ticks n signals

abbrev pub keepalives : ℕ → List Frame → List Frame
keepalives zero frames = frames
keepalives (suc n) frames = keepalive ∷ keepalives n frames

module _ {W : Type 0} (streaming : Streaming W) (deploy_id : ℕ) (shown : W → List Frame)
    (row : W → DeployStatus) (client : Client streaming deploy_id shown row) where
  open streaming use {write, flush, get_deploy, subscribe, unsubscribe}

  after_write_lem :
      (f : Frame) (next : Action W Outcome) (w : W)
      → after_write streaming deploy_id f next w ≡ next (write f w).1
  unfolding after_write ◌>>=◌
  after_write_lem f next w = rw (client.taken f w) refl

  -- An action from a world ends in an outcome and sends frames.
  Sends : Action W Outcome → W → Outcome → List Frame → Type 0
  Sends m w outcome frames = ((m w).0 ≡ outcome) × (shown (m w).1 ≡ shown w ++ frames)

  Sends-after_write :
      (f : Frame) (next : Action W Outcome) (w : W) (outcome : Outcome) (frames : List Frame)
      → Sends next (write f w).1 outcome frames
      → Sends (after_write streaming deploy_id f next) w outcome (f ∷ frames)
  unfolding Sends
  Sends-after_write f next w outcome frames (out, sent) = rw (after_write_lem f next w) (
    out,
    sent ∙ ap (λ s. s ++ frames) (client.write_shown f w) ∙ append_assoc (shown w) (f ∷ []) frames,
  )

  Sends-after_flush :
      (next : Action W Outcome) (w : W) (outcome : Outcome) (frames : List Frame)
      → Sends next (flush w) outcome frames
      → Sends (after_flush streaming deploy_id next) w outcome frames
  unfolding Sends after_flush
  Sends-after_flush next w outcome frames (out, sent) =
      (out, sent ∙ ap (λ s. s ++ frames) (client.flush_shown w))

  Sends-query :
      (next : Result Deploy → Action W Outcome) (w : W) (outcome : Outcome) (frames : List Frame)
      (r : Result Deploy)
      → (get_deploy deploy_id w).0 ≡ r
      → Sends (next r) (get_deploy deploy_id w).1 outcome frames
      → Sends (get_deploy deploy_id >>= next) w outcome frames
  unfolding Sends ◌>>=◌
  Sends-query next w outcome frames r found (out, sent) =
      rw (found, ◌>>=◌) (out, sent ∙ ap (λ s. s ++ frames) (client.query_shown w))

  Sends-none : (outcome : Outcome) (w : W) → Sends (pure outcome) w outcome []
  unfolding Sends pure
  Sends-none outcome w = (refl, sym (append-nil (shown w)))

  Sends-ticks :
      (n : ℕ) (signals : List Signal) (outcome : Outcome) (frames : List Frame) (s : DeployStatus)
      → ((w : W) → row w ≡ s → Sends (loop streaming deploy_id signals) w outcome frames)
      → (w : W) → row w ≡ s
      → Sends (loop streaming deploy_id (ticks n signals)) w outcome (keepalives n frames)
  unfolding loop
  Sends-ticks zero signals outcome frames s h w is = h w is
  Sends-ticks (suc n) signals outcome frames s h w is =
      Sends-after_write keepalive _ w outcome (keepalives n frames) (
        Sends-after_flush _ (write keepalive w).1 outcome (keepalives n frames) (
          Sends-ticks n signals outcome frames s h (flush (write keepalive w).1)
            (client.flush_row (write keepalive w).1 ∙ client.write_row keepalive w ∙ is)))

  Sends-last :
      (d : Deploy) (next : Action W Outcome) (w : W)
      → is_terminal d.status ≡ true
      → Sends
          (after_event streaming deploy_id (ok d) next)
          w
          ended
          (status "terminal" d.status ∷ [])
  unfolding after_event last_status
  Sends-last d next w terminal = rw terminal (
      Sends-after_write (status "terminal" d.status) _ w ended []
        (Sends-after_flush (pure ended) _ ended [] (Sends-none ended _)))

  Sends-event :
      (e : DeployEvent) (signals : List Signal) (s : DeployStatus)
      → is_terminal s ≡ true
      → (w : W) → row w ≡ s
      → Sends
          (loop streaming deploy_id (event e ∷ signals))
          w
          ended
          (deploy_event e ∷ status "terminal" s ∷ [])
  unfolding loop
  Sends-event e signals s terminal w is =
      let w1 = (write (deploy_event e) w).1 in
      let (d, found, same) = client.query_found w1 in
      let is_s : d.status ≡ s = same ∙ client.write_row (deploy_event e) w ∙ is in
      let next = λ (r : Result Deploy).
        after_event streaming deploy_id r (loop streaming deploy_id signals) in
      Sends-after_write (deploy_event e) _ w ended (status "terminal" s ∷ []) (
        Sends-query next w1 ended (status "terminal" s ∷ []) (ok d) found (
          subst
            (λ x. Sends (next (ok d)) (get_deploy deploy_id w1).1 ended (status "terminal" x ∷ []))
            is_s
            (Sends-last d (loop streaming deploy_id signals) (get_deploy deploy_id w1).1
              (ap is_terminal is_s ∙ terminal))))

  leaving_shown :
      (outcome : Outcome) (w : W) → Sends (leaving streaming deploy_id outcome) w outcome []
  unfolding Sends leaving
  leaving_shown waiting w = (refl, sym (append-nil (shown w)))
  leaving_shown ended w = (refl, client.unsubscribe_shown w ∙ sym (append-nil (shown w)))
  leaving_shown (refused code text) w =
      (refl, client.unsubscribe_shown w ∙ sym (append-nil (shown w)))

  -- A stream that is subscribed sends what its loop sends.
  Sends-subscribed :
      (signals : List Signal) (outcome : Outcome) (frames : List Frame) (w : W)
      → Sends (loop streaming deploy_id signals) (subscribe deploy_id w) outcome frames
      → Sends (subscribed streaming deploy_id signals) w outcome frames
  unfolding Sends subscribed
  Sends-subscribed signals outcome frames w (out, sent) =
      let r = loop streaming deploy_id signals (subscribe deploy_id w) in
      let (left, kept) = leaving_shown r.0 r.1 in
      (
        left ∙ out,
        kept ∙ append-nil (shown r.1) ∙ sent ∙ ap (λ s. s ++ frames) (client.subscribe_shown w),
      )

  ending :
      (s : DeployStatus)
      → is_terminal s ≡ true
      → (n : ℕ) (w : W) → row w ≡ s
      → (e : DeployEvent) (signals : List Signal)
      → Sends
          (subscribed streaming deploy_id (ticks n (event e ∷ signals)))
          w
          ended
          (keepalives n (deploy_event e ∷ status "terminal" s ∷ []))
  ending s terminal n w is e signals =
      Sends-subscribed (ticks n (event e ∷ signals)) ended
        (keepalives n (deploy_event e ∷ status "terminal" s ∷ [])) w
        (Sends-ticks n (event e ∷ signals) ended (deploy_event e ∷ status "terminal" s ∷ []) s
          (Sends-event e signals s terminal) (subscribe deploy_id w) (client.subscribe_row w ∙ is))

  going_on :
      (n : ℕ) (w : W)
      → Sends (subscribed streaming deploy_id (ticks n [])) w waiting (keepalives n [])
  unfolding loop
  going_on n w = Sends-subscribed (ticks n []) waiting (keepalives n []) w (
      Sends-ticks n [] waiting [] (row w) (λ w' _. Sends-none waiting w') (subscribe deploy_id w)
        (client.subscribe_row w))

  -- The stream of a deploy that has ended, once it is subscribed, ends with the next event, after any
  -- number of ticks: the client is sent a comment for each tick, the event and the deploy's status,
  -- and no more. The ticks alone do not end it: it goes on waiting, and the client is sent comments
  -- and no status.
  pub next_event_ends :
      (s : DeployStatus)
      → is_terminal s ≡ true
      → (n : ℕ) (w : W) → row w ≡ s
      → (e : DeployEvent) (signals : List Signal)
      → ((subscribed streaming deploy_id (ticks n (event e ∷ signals)) w).0 ≡ ended)
        × (shown (subscribed streaming deploy_id (ticks n (event e ∷ signals)) w).1
            ≡ shown w ++ keepalives n (deploy_event e ∷ status "terminal" s ∷ []))
        × ((subscribed streaming deploy_id (ticks n []) w).0 ≡ waiting)
        × (shown (subscribed streaming deploy_id (ticks n []) w).1 ≡ shown w ++ keepalives n [])
  unfolding Sends
  next_event_ends s terminal n w is e signals =
      let (out, sent) = ending s terminal n w is e signals in
      let (on, comments) = going_on n w in (out, sent, on, comments)
