-- ===== src/Broadcast.antt =====
-- internal/deploy/event_broadcaster.go. A channel is known by the id of its subscription, which is
-- never given twice; a Go panic is `none`. `publish` runs in three parts: the lock is held in the
-- first and in the last, and not while the events are sent.
mod Maps
pub mod Valid
pub mod Delivery
pub mod Publish
pub mod Race
use project_talos.Prelude.{
  ℕ, ◌+◌, Bool, true, false, Option, none, some, List, [], ◌∷◌, ◌++◌, ◌==◌, nat_eq, ltb, length,
  is_empty, if◌then◌else◌, update, contains, remove,
}
use project_talos.Domain.{DeployEvent}

-- `deployEventSubscriberBuffer`
abbrev pub subscriber_buffer : ℕ
subscriber_buffer = 256

pub record Channel : Type 0 where
  pub buffer : List DeployEvent
  pub closed : Bool

pub record EventBroadcaster : Type 0 where
  pub next_id : ℕ
  pub subscribers : ℕ → Option (List ℕ)
  pub channels : ℕ → Channel
  -- the `sync.Once` of each subscription's `unsubscribe`
  pub unsubscribed : ℕ → Bool

abbrev pub open_channel : Channel
open_channel = record { buffer = []; closed = false }

unfoldable pub new_event_broadcaster : EventBroadcaster
new_event_broadcaster = record {
  next_id = 0;
  subscribers = λ _. none;
  channels = λ _. open_channel;
  unsubscribed = λ _. false;
}

-- A missing inner map reads as an empty one.
unfoldable pub subs_at : (ℕ → Option (List ℕ)) → ℕ → List ℕ
subs_at m d = elim (m d) [ none ↦ [] | some ids ↦ ids ]

abbrev pub subs_of : EventBroadcaster → ℕ → List ℕ
subs_of b d = subs_at b.subscribers d

unfoldable pub subscribe : ℕ → EventBroadcaster → ℕ × EventBroadcaster
subscribe d b =
    let sub_id = b.next_id + 1 in
    (
      sub_id,
      record b {
        next_id = sub_id;
        subscribers = update b.subscribers d (some (sub_id ∷ remove sub_id (subs_of b d)));
        channels = update b.channels sub_id open_channel;
      },
    )

-- `close(ch)`, which panics on a closed channel
abbrev pub close : ℕ → (ℕ → Channel) → Option (ℕ → Channel)
close i c =
    if (c i).closed
    then none
    else some (update c i (record { buffer = (c i).buffer; closed = true }))

-- `if len(deploySubs) == 0 { delete(b.subscribers, deployID) }`
abbrev pub set_subs : ℕ → List ℕ → (ℕ → Option (List ℕ)) → ℕ → Option (List ℕ)
set_subs d ids m = update m d (if is_empty ids then none else some ids)

-- The function that `Subscribe` returns.
unfoldable pub unsubscribe : ℕ → ℕ → EventBroadcaster → Option EventBroadcaster
unsubscribe d sub_id b =
    if b.unsubscribed sub_id
    then some b
    else let b' = record b { unsubscribed = update b.unsubscribed sub_id true } in
      if contains sub_id (subs_of b d)
      then elim (close sub_id b.channels) [
        | none ↦ none
        | some c ↦ some (record b' {
          subscribers = set_subs d (remove sub_id (subs_of b d)) b.subscribers;
          channels = c;
        })
      ]
      else some b'

-- `target.ch <- &copy` with a `default` branch; sending on a closed channel panics.
pub try_send : DeployEvent → ℕ → (ℕ → Channel) × List ℕ → Option ((ℕ → Channel) × List ℕ)
try_send e i (c, slow) =
    if (c i).closed
    then none
    else if ltb (length (c i).buffer) subscriber_buffer
    then some (update c i (record { buffer = (c i).buffer ++ e ∷ []; closed = false }), slow)
    else some (c, slow ++ i ∷ [])

pub send_all : DeployEvent → List ℕ → (ℕ → Channel) × List ℕ → Option ((ℕ → Channel) × List ℕ)
send_all e [] s = some s
send_all e (i ∷ ids) s = elim (try_send e i s) [ none ↦ none | some s' ↦ send_all e ids s' ]

-- The last loop: the slow subscribers that are still there leave the map and are closed.
pub drop_loop : List ℕ → List ℕ × (ℕ → Channel) → Option (List ℕ × (ℕ → Channel))
drop_loop [] s = some s
drop_loop (i ∷ slow) (ids, c) =
    if contains i ids
    then elim (close i c) [ none ↦ none | some c' ↦ drop_loop slow (remove i ids, c') ]
    else drop_loop slow (ids, c)

pub drop_slow : ℕ → List ℕ → EventBroadcaster → Option EventBroadcaster
unfolding drop_loop
drop_slow d slow b = elim (drop_loop slow (subs_of b d, b.channels)) [
  | none ↦ none
  | some (ids, c) ↦ some (record b { subscribers = set_subs d ids b.subscribers; channels = c })
]

unfoldable pub publish : DeployEvent → EventBroadcaster → Option EventBroadcaster
unfolding drop_slow send_all try_send
publish e b =
    if is_empty (subs_of b e.deploy_id)
    then some b
    else elim (send_all e (subs_of b e.deploy_id) (b.channels, [])) [
      | none ↦ none
      | some (c, slow) ↦
          let b' = record b { channels = c } in
          if is_empty slow then some b' else drop_slow e.deploy_id slow b'
    ]

-- `SubscriberCount`
unfoldable pub subscriber_count : ℕ → EventBroadcaster → ℕ
subscriber_count d b = length (subs_of b d)
