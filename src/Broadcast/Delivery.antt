-- ===== src/Broadcast/Delivery.antt =====
-- What a publication leaves: the loop of sends and the loop that drops the slow subscribers, each
-- against a description by position, and then the whole of `publish`.
use project_talos.Prelude.{
  ℕ, ◌≡◌, refl, ◌∙◌, fun_ext, inl, inr, Bool, true, false, not, ◌&&◌, some, List, [], ◌∷◌, ◌++◌,
  arith, ltb, length, where_rows, append_assoc, append-nil, update, Bool-cases, contains, remove,
  Unique, contains_head, contains_later, contains-remove, nat_eq, if◌then◌else◌,
}
use project_talos.Domain.{DeployEvent}
use project_talos.Broadcast.{Channel, subscriber_buffer, try_send, send_all, drop_loop}

abbrev pub has_room : Channel → Bool
has_room c = ltb (length c.buffer) subscriber_buffer

abbrev pub pushed : DeployEvent → Channel → Channel
pushed e c = record { buffer = c.buffer ++ e ∷ []; closed = false }

abbrev pub hung_up : Channel → Channel
hung_up c = record { buffer = c.buffer; closed = true }

-- Each channel of `ids` with room gets the event.
abbrev pub delivered : DeployEvent → List ℕ → (ℕ → Channel) → ℕ → Channel
delivered e ids c j = if contains j ids && has_room (c j) then pushed e (c j) else c j

abbrev pub full : List ℕ → (ℕ → Channel) → List ℕ
full ids c = where_rows (λ i. not (has_room (c i))) ids

abbrev pub AllOpen : List ℕ → (ℕ → Channel) → Type 0
AllOpen ids c = (j : ℕ) → contains j ids ≡ true → (c j).closed ≡ false

-- A write to a channel outside `ids` changes neither which are full nor what is delivered.
full-update :
    (ids : List ℕ) (c : ℕ → Channel) (i : ℕ) (x : Channel)
    → contains i ids ≡ false
    → full ids (update c i x) ≡ full ids c
full-update [] c i x h = refl
full-update (k ∷ ids) c i x h = ground (arith, full-update ids c i x)

delivered-update :
    (e : DeployEvent) (i : ℕ) (ids : List ℕ) (c : ℕ → Channel)
    → contains i ids ≡ false
    → has_room (c i) ≡ true
    → (j : ℕ) → delivered e ids (update c i (pushed e (c i))) j ≡ delivered e (i ∷ ids) c j
delivered-update e i ids c h r j = ground arith

delivered_full :
    (e : DeployEvent) (i : ℕ) (ids : List ℕ) (c : ℕ → Channel)
    → has_room (c i) ≡ false
    → (j : ℕ) → delivered e ids c j ≡ delivered e (i ∷ ids) c j
delivered_full e i ids c r j = ground arith

try_send_room :
    (e : DeployEvent) (i : ℕ) (c : ℕ → Channel) (slow : List ℕ)
    → (c i).closed ≡ false
    → has_room (c i) ≡ true
    → try_send e i (c, slow) ≡ some (update c i (pushed e (c i)), slow)
unfolding try_send
try_send_room e i c slow o r = rw (o, r)

try_send_full :
    (e : DeployEvent) (i : ℕ) (c : ℕ → Channel) (slow : List ℕ)
    → (c i).closed ≡ false
    → has_room (c i) ≡ false
    → try_send e i (c, slow) ≡ some (c, slow ++ i ∷ [])
unfolding try_send
try_send_full e i c slow o r = rw (o, r)

pub send_all-eq :
    (e : DeployEvent) (ids : List ℕ) (c : ℕ → Channel) (slow : List ℕ)
    → Unique ids
    → AllOpen ids c
    → send_all e ids (c, slow) ≡ some (delivered e ids c, slow ++ full ids c)
unfolding send_all
send_all-eq e [] c slow u o = rw append-nil
send_all-eq e (i ∷ ids) c slow u o = elim (Bool-cases (has_room (c i))) [
  | inl r ↦
      let x = pushed e (c i) in
      rw (try_send_room e i c slow (o i (contains_head i ids)) r, send_all)
        (send_all-eq e ids (update c i x) slow u.1
            (λ j h. ground (arith, o j (contains_later j i ids h)))
          ∙ cc (fun_ext (delivered-update e i ids c u.0 r), full-update ids c i x u.0))
  | inr r ↦
      rw (try_send_full e i c slow (o i (contains_head i ids)) r, send_all)
        (send_all-eq e ids c (slow ++ i ∷ []) u.1 (λ j h. o j (contains_later j i ids h))
          ∙ cc (fun_ext (delivered_full e i ids c r), append_assoc slow (i ∷ []) (full ids c)))
]

-- The channels after the slow ones have been closed.
abbrev pub closed_at : List ℕ → (ℕ → Channel) → ℕ → Channel
closed_at ids c j = if contains j ids then hung_up (c j) else c j

abbrev pub without : List ℕ → List ℕ → List ℕ
without [] ids = ids
without (i ∷ slow) ids = without slow (remove i ids)

closed_at-update :
    (i : ℕ) (slow : List ℕ) (c : ℕ → Channel) (j : ℕ)
    → closed_at slow (update c i (hung_up (c i))) j ≡ closed_at (i ∷ slow) c j
closed_at-update i slow c j = ground arith

pub drop_loop-eq :
    (slow ids : List ℕ) (c : ℕ → Channel)
    → Unique slow
    → ((j : ℕ) → contains j slow ≡ true → contains j ids ≡ true)
    → AllOpen slow c
    → drop_loop slow (ids, c) ≡ some (without slow ids, closed_at slow c)
unfolding drop_loop
drop_loop-eq [] ids c u sub o = refl
drop_loop-eq (i ∷ slow) ids c u sub o =
    rw (sub i (contains_head i slow), o i (contains_head i slow))
      (drop_loop-eq slow (remove i ids) (update c i (hung_up (c i))) u.1
          (λ j h. ground (arith, sub j (contains_later j i slow h), contains-remove j i ids))
          (λ j h. ground (arith, o j (contains_later j i slow h)))
        ∙ cc (fun_ext (closed_at-update i slow c)))

pub contains-without :
    (slow ids : List ℕ) (j : ℕ)
    → contains j (without slow ids) ≡ (contains j ids && not (contains j slow))
contains-without [] ids j = ground arith
contains-without (i ∷ slow) ids j =
    ground (arith, contains-without slow (remove i ids) j, contains-remove j i ids)

pub contains-full :
    (ids : List ℕ) (c : ℕ → Channel) (j : ℕ)
    → contains j (full ids c) ≡ (contains j ids && not (has_room (c j)))
contains-full [] c j = refl
contains-full (i ∷ ids) c j = ground (arith, contains-full ids c j)

pub full-Unique : (ids : List ℕ) (c : ℕ → Channel) → Unique ids → Unique (full ids c)
full-Unique [] c u = tt
full-Unique (i ∷ ids) c u = ground (arith, full-Unique ids c u.1, contains-full ids c i)
