-- ===== src/Broadcast/Race.antt =====
-- Interleavings: whole operations in any order, and an `unsubscribe` between the two locked parts
-- of a publication.
use project_talos.Prelude.{
  ℕ, ◌≤◌, ◌≡◌, ◌≢◌, true, false, none, some, List, [], ◌∷◌, arith, length, sym, ◌∙◌, ◌++◌, subst,
  nat_eq, contains, update, nat_beq_iff,
}
use project_talos.Domain.{DeployEvent}
use project_talos.Broadcast.{
  Channel, EventBroadcaster, new_event_broadcaster, subs_of, subscribe, unsubscribe, publish,
  try_send, send_all, subscriber_buffer,
}
use project_talos.Broadcast.Valid.{
  IsValid, listed, new_event_broadcaster-IsValid, subscribe-IsValid, unsubscribe_safe, cancelled,
}
use project_talos.Broadcast.Publish.{publish-eq, published-IsValid}

-- `event, ok := <-ch`, where an event is waiting
abbrev pub tail_of : List DeployEvent → List DeployEvent
tail_of [] = []
tail_of (_ ∷ rest) = rest

abbrev pub receive : ℕ → EventBroadcaster → EventBroadcaster
receive i b = record b {
  channels =
      update b.channels i
        (record { buffer = tail_of (b.channels i).buffer; closed = (b.channels i).closed });
}

-- One operation, run without another in between. An `unsubscribe` names the deploy that its
-- subscription was made for.
pub data Step (b : EventBroadcaster) : EventBroadcaster → Type 0 where
  subscribes : (d : ℕ) → Step b (subscribe d b).1
  unsubscribes :
      {b' : EventBroadcaster} (d i : ℕ)
      → i ≤ b.next_id
      → ((e : ℕ) → listed b e i ≡ true → d ≡ e)
      → unsubscribe d i b ≡ some b'
      → Step b b'
  publishes : {b' : EventBroadcaster} (e : DeployEvent) → publish e b ≡ some b' → Step b b'
  receives : (i : ℕ) → Step b (receive i b)

pub data Reach : EventBroadcaster → Type 0 where
  start : Reach new_event_broadcaster
  next : {b b' : EventBroadcaster} → Reach b → Step b b' → Reach b'

length-tail_of : (l : List DeployEvent) → length (tail_of l) ≤ length l
length-tail_of [] = omega arith
length-tail_of (x ∷ l) = omega arith

receive-IsValid : (i : ℕ) (b : EventBroadcaster) → IsValid b → IsValid (receive i b)
receive-IsValid i b v = record {
  listed_open = λ d j h. ground (arith, v.listed_open d j);
  listed_known = v.listed_known;
  one_owner = v.one_owner;
  no_duplicates = v.no_duplicates;
  listed_pending = v.listed_pending;
  pending = v.pending;
  no_empty = v.no_empty;
  bounded = λ j. ground (arith, v.bounded j, v.bounded i, length-tail_of (b.channels i).buffer);
}

some_unique : {b b' : EventBroadcaster} → some b ≡ some b' → b ≡ b'
some_unique p = cc

Step-IsValid : {b b' : EventBroadcaster} → Step b b' → IsValid b → IsValid b'
Step-IsValid {b} (subscribes d) v = subscribe-IsValid d b v
Step-IsValid {b} (unsubscribes d i known owned p) v =
    let (c, q, w, _) = unsubscribe_safe d i b v known owned in
    subst IsValid (some_unique (sym q ∙ p)) w
Step-IsValid {b} (publishes e p) v =
    subst IsValid (some_unique (sym (publish-eq e b v) ∙ p)) (published-IsValid e b v)
Step-IsValid {b} (receives i) v = receive-IsValid i b v

Reach-IsValid : {b : EventBroadcaster} → Reach b → IsValid b
Reach-IsValid start = new_event_broadcaster-IsValid
Reach-IsValid (next r s) = Step-IsValid s (Reach-IsValid r)

-- A send to a closed channel panics, wherever the channel stands among the targets.
send_all-closed :
    (e : DeployEvent) (i : ℕ) (ids : List ℕ) (c : ℕ → Channel) (slow : List ℕ)
    → contains i ids ≡ true
    → (c i).closed ≡ true
    → send_all e ids (c, slow) ≡ none
unfolding send_all try_send
send_all-closed e i [] c slow h z = cc
send_all-closed e i (k ∷ ids) c slow h z = ground (
  arith,
  nat_beq_iff k i,
  send_all-closed e i ids c slow,
  send_all-closed e i ids c (slow ++ k ∷ []),
  send_all-closed e i ids (update c k (record { buffer = (c k).buffer ++ e ∷ []; closed = false }))
      slow,
)

-- Whatever operations have run, each whole before the next, a publication does not panic and no
-- buffer holds more than its 256 events.
pub publish_reachable :
    {b : EventBroadcaster} (e : DeployEvent)
    → Reach b
    → (publish e b ≢ none) × ((i : ℕ) → length (b.channels i).buffer ≤ subscriber_buffer)
publish_reachable {b} e r = let v = Reach-IsValid r in (λ p. cc (publish-eq e b v), v.bounded)

-- The sends run without the lock. If a subscriber of the event's deploy unsubscribes after
-- the targets have been listed and before they have been sent to, the publication panics: from
-- every valid state, with every such subscriber.
pub publish_unsubscribe_race :
    (e : DeployEvent) (i : ℕ) (b : EventBroadcaster)
    → IsValid b
    → listed b e.deploy_id i ≡ true
    → (b' : EventBroadcaster) × (unsubscribe e.deploy_id i b ≡ some b')
      × (send_all e (subs_of b e.deploy_id) (b'.channels, []) ≡ none)
publish_unsubscribe_race e i b v l = (
  cancelled e.deploy_id i b,
  unfold unsubscribe in rw (v.listed_pending e.deploy_id i l, l, v.listed_open e.deploy_id i l),
  send_all-closed e i (subs_of b e.deploy_id) _ [] l (ground arith),
)
