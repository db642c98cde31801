-- ===== src/Broadcast/Valid.antt =====
-- The invariant of the broadcaster, and that subscribing and unsubscribing keep it.
use project_talos.Prelude.{
  ℕ, ◌+◌, ◌≤◌, ◌≡◌, refl, ◌≢◌, ◌⊎◌, inl, inr, Bool, true, false, some, [], ◌∷◌, arith, length,
  update, Bool-cases, contains, remove, Unique, contains-remove, remove-Unique,
}
use project_talos.Broadcast.Maps.{subs_at-update, subs_at-set_subs}
use project_talos.Broadcast.{
  EventBroadcaster, new_event_broadcaster, subs_of, subs_at, subscribe, unsubscribe, set_subs,
  subscriber_buffer,
}

-- The subscription `i` is in the map of deploy `d`.
abbrev pub listed : EventBroadcaster → ℕ → ℕ → Bool
listed b d i = contains i (subs_of b d)

pub record IsValid (b : EventBroadcaster) : Type 0 where
  -- a listed subscription has an open channel, and has been given out
  pub listed_open : (d i : ℕ) → listed b d i ≡ true → (b.channels i).closed ≡ false
  pub listed_known : (d i : ℕ) → listed b d i ≡ true → i ≤ b.next_id
  -- it belongs to one deploy, once, and nobody has called its `unsubscribe`
  pub one_owner : (d e i : ℕ) → listed b d i ≡ true → listed b e i ≡ true → d ≡ e
  pub no_duplicates : (d : ℕ) → Unique (subs_of b d)
  pub listed_pending : (d i : ℕ) → listed b d i ≡ true → b.unsubscribed i ≡ false
  -- a subscription that has not been given out cannot have been cancelled
  pub pending : (i : ℕ) → b.unsubscribed i ≡ true → i ≤ b.next_id
  -- no inner map is empty, and no buffer is over its capacity
  pub no_empty : (d : ℕ) → b.subscribers d ≢ some []
  pub bounded : (i : ℕ) → length (b.channels i).buffer ≤ subscriber_buffer

pub new_event_broadcaster-IsValid : IsValid new_event_broadcaster
unfolding new_event_broadcaster subs_at
new_event_broadcaster-IsValid = record {
  listed_open = λ d i h. refl;
  listed_known = λ d i h. cc;
  one_owner = λ d e i h k. cc;
  no_duplicates = λ d. tt;
  listed_pending = λ d i h. refl;
  pending = λ i h. cc;
  no_empty = λ d h. cc;
  bounded = λ i. omega arith;
}

module _ (d : ℕ) (b : EventBroadcaster) (v : IsValid b) where
  listed-subscribe :
      (e i : ℕ)
      → listed (subscribe d b).1 e i ≡ true
      → ((d ≡ e) × (i ≡ b.next_id + 1)) ⊎ (listed b e i ≡ true)
  unfolding subscribe
  listed-subscribe e i h = ground (
    arith,
    h,
    subs_at-update b.subscribers d e ((b.next_id + 1) ∷ remove (b.next_id + 1) (subs_of b d)),
    contains-remove i (b.next_id + 1) (subs_of b d),
  )

  -- Subscribing keeps the invariant.
  pub subscribe-IsValid : IsValid (subscribe d b).1
  unfolding subscribe
  subscribe-IsValid = record {
    listed_open = λ e i h. ground (arith, listed-subscribe e i h, v.listed_open e i);
    listed_known = λ e i h. ground (arith, listed-subscribe e i h, v.listed_known e i);
    one_owner = λ e f i h k. ground (
      arith,
      listed-subscribe e i h,
      listed-subscribe f i k,
      v.one_owner e f i,
      v.listed_known e i,
      v.listed_known f i,
    );
    no_duplicates = λ e. ground (
      arith,
      subs_at-update b.subscribers d e ((b.next_id + 1) ∷ remove (b.next_id + 1) (subs_of b d)),
      contains-remove (b.next_id + 1) (b.next_id + 1) (subs_of b d),
      remove-Unique (b.next_id + 1) (subs_of b d) (v.no_duplicates d),
      v.no_duplicates e,
    );
    listed_pending =
        λ e i h. ground (arith, listed-subscribe e i h, v.listed_pending e i, v.pending i);
    pending = λ i h. ground (arith, v.pending i);
    no_empty = λ e h. ground (arith, v.no_empty e);
    bounded = λ i. ground (arith, v.bounded i);
  }

-- What `unsubscribe` leaves when the subscription is still in the map.
abbrev pub cancelled : ℕ → ℕ → EventBroadcaster → EventBroadcaster
cancelled d i b = record b {
  unsubscribed = update b.unsubscribed i true;
  subscribers = set_subs d (remove i (subs_of b d)) b.subscribers;
  channels = update b.channels i (record { buffer = (b.channels i).buffer; closed = true });
}

module _ (d i : ℕ) (b : EventBroadcaster) (v : IsValid b) where
  listed-cancelled :
      (e j : ℕ)
      → listed b d i ≡ true
      → listed (cancelled d i b) e j ≡ true
      → (listed b e j ≡ true) × (i ≢ j)
  listed-cancelled e j l h = ground (
    arith,
    subs_at-set_subs b.subscribers d e (remove i (subs_of b d)),
    contains-remove j i (subs_of b d),
    v.one_owner d e j,
  )

  cancelled-IsValid : listed b d i ≡ true → IsValid (cancelled d i b)
  cancelled-IsValid l = record {
    listed_open = λ e j h. ground (arith, listed-cancelled e j l h, v.listed_open e j);
    listed_known = λ e j h. ground (arith, listed-cancelled e j l h, v.listed_known e j);
    one_owner =
        λ e f j h k. v.one_owner e f j (listed-cancelled e j l h).0 (listed-cancelled f j l k).0;
    no_duplicates = λ e. ground (
      arith,
      subs_at-set_subs b.subscribers d e (remove i (subs_of b d)),
      remove-Unique i (subs_of b d) (v.no_duplicates d),
      v.no_duplicates e,
    );
    listed_pending = λ e j h. ground (arith, listed-cancelled e j l h, v.listed_pending e j);
    pending = λ j h. ground (arith, v.pending j, v.listed_known d i l);
    no_empty = λ e h. ground (arith, v.no_empty e);
    bounded = λ j. ground (arith, v.bounded j, v.bounded i);
  }

  -- Called at any time for a subscription of deploy `d`, `unsubscribe` does not panic, keeps the invariant, and leaves the
  -- subscription out of the map.
  pub unsubscribe_safe :
      i ≤ b.next_id
      → ((e : ℕ) → listed b e i ≡ true → d ≡ e)
      → (b' : EventBroadcaster) × (unsubscribe d i b ≡ some b')
        × IsValid b'
        × (listed b' d i ≡ false)
  unfolding unsubscribe
  unsubscribe_safe known owned = elim (Bool-cases (b.unsubscribed i)) [
    | inl gone ↦ (b, rw gone, v, ground (arith, v.listed_pending d i))
    | inr fresh ↦ elim (Bool-cases (listed b d i)) [
      | inl l ↦ (
        cancelled d i b,
        rw (fresh, l, v.listed_open d i l),
        cancelled-IsValid l,
        ground (
          arith,
          subs_at-set_subs b.subscribers d d (remove i (subs_of b d)),
          contains-remove i i (subs_of b d),
        ),
      )
      | inr l ↦ (
        record b { unsubscribed = update b.unsubscribed i true },
        rw (fresh, l),
        record {
          listed_open = v.listed_open;
          listed_known = v.listed_known;
          one_owner = v.one_owner;
          no_duplicates = v.no_duplicates;
          listed_pending = λ e j h. ground (arith, v.listed_pending e j, owned e);
          pending = λ j h. ground (arith, v.pending j);
          no_empty = v.no_empty;
          bounded = v.bounded;
        },
        l,
      )
    ]
  ]
