-- ===== src/Examples/Broadcast.antt =====
-- A broadcaster with one subscriber of the deploy 1.
use project_talos.Prelude.{
  ℕ, ◌≡◌, ◌≢◌, ◌≤◌, refl, true, not, ◌&&◌, ◌||◌, none, some, [], length, ◌==◌, nat_eq,
  if◌then◌else◌,
}
use project_talos.Domain.{DeployEvent}
use project_talos.Broadcast.{
  EventBroadcaster, new_event_broadcaster, subs_of, subs_at, subscribe, unsubscribe, publish,
  send_all, subscriber_buffer,
}
use project_talos.Broadcast.Valid.{
  IsValid, listed, new_event_broadcaster-IsValid, subscribe-IsValid,
}
use project_talos.Broadcast.Delivery.{has_room, pushed, hung_up}
use project_talos.Broadcast.Publish.{publish_delivers}
use project_talos.Broadcast.Race.{Reach, Step, publish_reachable, publish_unsubscribe_race}

abbrev event : DeployEvent
event = record {
  id = 7;
  deploy_id = 1;
  timestamp = 0;
  level = "info";
  step = "start";
  message = "started";
}

abbrev listening : EventBroadcaster
listening = (subscribe 1 new_event_broadcaster).1

listening-IsValid : IsValid listening
listening-IsValid = subscribe-IsValid 1 new_event_broadcaster new_event_broadcaster-IsValid

is_listed : listed listening 1 1 ≡ true
unfolding subscribe new_event_broadcaster subs_at
is_listed = refl

publish_delivers_example :
    (b' : EventBroadcaster) × (publish event listening ≡ some b')
    × IsValid b'
    × ((i : ℕ)
        → b'.channels i ≡ (
            if listed listening 1 i
            then (if has_room (listening.channels i)
                then pushed event (listening.channels i)
                else hung_up (listening.channels i))
            else listening.channels i))
    × ((d i : ℕ)
        → listed b' d i
          ≡ (listed listening d i && (not (1 == d) || has_room (listening.channels i))))
publish_delivers_example = publish_delivers event listening listening-IsValid

publish_reachable_example :
    (publish event listening ≢ none)
    × ((i : ℕ) → length (listening.channels i).buffer ≤ subscriber_buffer)
publish_reachable_example = publish_reachable event (Reach.next Reach.start (Step.subscribes 1))

publish_unsubscribe_race_example :
    (b' : EventBroadcaster) × (unsubscribe 1 1 listening ≡ some b')
    × (send_all event (subs_of listening 1) (b'.channels, []) ≡ none)
publish_unsubscribe_race_example =
    publish_unsubscribe_race event 1 listening listening-IsValid is_listed
