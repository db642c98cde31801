-- ===== src/Broadcast/Publish.antt =====
-- `publish` as a whole, from a valid state.
use project_talos.Prelude.{
  ℕ, ◌≡◌, inl, inr, not, ◌&&◌, ◌||◌, some, List, [], ◌∷◌, arith, length-append, is_empty,
  eq_nil_of_is_empty, Bool-cases, remove, Unique, remove-Unique, ◌==◌, nat_eq, if◌then◌else◌,
}
use project_talos.Domain.{DeployEvent}
use project_talos.Broadcast.{
  Channel, EventBroadcaster, subs_of, set_subs, send_all, drop_loop, drop_slow, publish,
}
use project_talos.Broadcast.Maps.{subs_at-set_subs}
use project_talos.Broadcast.Valid.{IsValid, listed}
use project_talos.Broadcast.Delivery.{
  has_room, pushed, hung_up, delivered, full, closed_at, without, send_all-eq, drop_loop-eq,
  contains-without, contains-full, full-Unique,
}

without-Unique : (slow ids : List ℕ) → Unique ids → Unique (without slow ids)
without-Unique [] ids u = u
without-Unique (i ∷ slow) ids u = without-Unique slow (remove i ids) (remove-Unique i ids u)

-- The state that a publication leaves.
abbrev pub slow_of : DeployEvent → EventBroadcaster → List ℕ
slow_of e b = full (subs_of b e.deploy_id) b.channels

abbrev pub published : DeployEvent → EventBroadcaster → EventBroadcaster
published e b = record b {
  subscribers =
      if is_empty (slow_of e b)
      then b.subscribers
      else set_subs e.deploy_id (without (slow_of e b) (subs_of b e.deploy_id)) b.subscribers;
  channels = closed_at (slow_of e b) (delivered e (subs_of b e.deploy_id) b.channels);
}

module _ (e : DeployEvent) (b : EventBroadcaster) (v : IsValid b) where
  abbrev ids : List ℕ
  ids = subs_of b e.deploy_id

  abbrev sent : ℕ → Channel
  sent = delivered e ids b.channels

  sends : send_all e ids (b.channels, []) ≡ some (sent, slow_of e b)
  sends = send_all-eq e ids b.channels [] (v.no_duplicates e.deploy_id) (v.listed_open e.deploy_id)

  drops :
      drop_loop (slow_of e b) (ids, sent)
      ≡ some (without (slow_of e b) ids, closed_at (slow_of e b) sent)
  drops =
      drop_loop-eq (slow_of e b) ids sent (full-Unique ids b.channels (v.no_duplicates e.deploy_id))
        (λ j h. ground (arith, contains-full ids b.channels j))
        (λ j h. ground (arith, contains-full ids b.channels j, v.listed_open e.deploy_id j))

  pub publish-eq : publish e b ≡ some (published e b)
  unfolding publish
  publish-eq = elim (Bool-cases (is_empty ids)) [
    | inl z ↦ rw (z, eq_nil_of_is_empty ids z)
    | inr more ↦ elim (Bool-cases (is_empty (slow_of e b))) [
      | inl z ↦ rw (more, sends, z, eq_nil_of_is_empty (slow_of e b) z)
      | inr some_slow ↦ rw (more, sends, some_slow, drops, drop_slow)
    ]
  ]

  -- Who is listed after the publication: the slow subscribers of this deploy are not.
  subs_of-published :
      (d : ℕ)
      → subs_of (published e b) d
        ≡ (if e.deploy_id == d then without (slow_of e b) ids else subs_of b d)
  subs_of-published d = elim (Bool-cases (is_empty (slow_of e b))) [
    | inl z ↦ rw (z, eq_nil_of_is_empty (slow_of e b) z) (ground arith)
    | inr some_slow ↦ rw (some_slow, subs_at-set_subs b.subscribers e.deploy_id d)
  ]

  listed-published :
      (d i : ℕ)
      → listed (published e b) d i
        ≡ (listed b d i && (not (e.deploy_id == d) || has_room (b.channels i)))
  listed-published d i = ground (
    arith,
    subs_of-published d,
    contains-without (slow_of e b) ids i,
    contains-full ids b.channels i,
  )

  channels-published :
      (i : ℕ)
      → (published e b).channels i ≡ (
          if listed b e.deploy_id i
          then (if has_room (b.channels i) then pushed e (b.channels i) else hung_up (b.channels i))
          else b.channels i)
  channels-published i = ground (arith, contains-full ids b.channels i)

  pub published-IsValid : IsValid (published e b)
  published-IsValid = record {
    listed_open = λ d i h. ground (
      arith,
      h,
      listed-published d i,
      channels-published i,
      v.listed_open d i,
      v.one_owner d e.deploy_id i,
    );
    listed_known = λ d i h. ground (arith, h, listed-published d i, v.listed_known d i);
    one_owner = λ d f i h k.
        ground (arith, h, k, listed-published d i, listed-published f i, v.one_owner d f i);
    no_duplicates = λ d. ground (
      arith,
      subs_of-published d,
      without-Unique (slow_of e b) ids (v.no_duplicates e.deploy_id),
      v.no_duplicates d,
    );
    listed_pending = λ d i h. ground (arith, h, listed-published d i, v.listed_pending d i);
    pending = v.pending;
    no_empty = λ d h. ground (arith, v.no_empty d);
    bounded = λ i.
        ground
          (arith, channels-published i, v.bounded i, length-append (b.channels i).buffer (e ∷ []));
  }

-- From a valid state a publication returns without a panic and leaves a valid state. A listed
-- subscriber of the event's deploy whose buffer has room gets the event as its last one; one whose
-- buffer is full keeps its buffer, is closed and leaves the map. No other channel and no other
-- entry of the map changes.
pub publish_delivers :
    (e : DeployEvent) (b : EventBroadcaster)
    → IsValid b
    → (b' : EventBroadcaster) × (publish e b ≡ some b')
      × IsValid b'
      × ((i : ℕ)
          → b'.channels i ≡ (
              if listed b e.deploy_id i
              then (if has_room (b.channels i)
                  then pushed e (b.channels i)
                  else hung_up (b.channels i))
              else b.channels i))
      × ((d i : ℕ)
          → listed b' d i ≡ (listed b d i && (not (e.deploy_id == d) || has_room (b.channels i))))
publish_delivers e b v = (
  published e b,
  publish-eq e b v,
  published-IsValid e b v,
  channels-published e b v,
  listed-published e b v,
)
