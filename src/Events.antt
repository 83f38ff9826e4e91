-- ===== src/Events.antt =====
-- crates/mcpmem-core/src/events.rs: the delivery outbox and its leases.
-- A method is one immediate transaction: `err` leaves the tables as they were. Uuids are numbers of
-- 128 bits, whose order is that of their text; the ones that a method draws are arguments. Clocks are
-- microseconds since 1970 and never negative.
pub mod Records
pub mod Trace
pub mod Choice
pub mod Exclusive
pub mod Fencing
pub mod Finished
pub mod Holding
mod Examples
use mcpmem.Prelude.{
  earliest, ℕ, ◌+◌, ◌*◌, Bool, true, false, ◌&&◌, ◌||◌, not, String, Option, none, some, List, [],
  ◌∷◌, leb, ltb, ◌==◌, nat_eq, if◌then◌else◌, Result, ok, err, ◌>>=◌, first_where, exists_where,
  count_where, update_where,
}
use Records.*

abbrev pub max_lease_us : ℕ
max_lease_us = 3_600_000_000

unfoldable pub lease_until : ℕ → ℕ → Result CoreError ℕ
lease_until now duration_us =
    if duration_us == 0 || ltb max_lease_us duration_us
    then err invalid_params
    else if leb (now + duration_us) i64_max
    then ok (now + duration_us)
    else err invalid_params

unfoldable pub get : ℕ → Outbox → Option ChangeEvent
get event_id s = first_where (λ e. e.event_id == event_id) s.events

-- INSERT INTO event_outbox … ON CONFLICT(event_id,subscription_id) DO NOTHING, and the rows inserted.
unfoldable pub insert_delivery : ℕ → ℕ → ℕ → Outbox → Outbox × ℕ
insert_delivery delivery_id event_id subscription_id s =
    if exists_where (λ d. d.event_id == event_id && d.subscription_id == subscription_id)
      s.deliveries
    then (s, 0)
    else (
      record s { deliveries = new_delivery delivery_id event_id subscription_id ∷ s.deliveries },
      1,
    )

pub enqueue_delivery : ℕ → ℕ → ℕ → Outbox → Outbox × Result CoreError (Unit {0})
unfolding get insert_delivery
enqueue_delivery delivery_id event_id subscription_id s = elim (get event_id s) [
  | none ↦ (s, err invalid_params)
  | some _ ↦ ((insert_delivery delivery_id event_id subscription_id s).0, ok tt)
]

abbrev pub due : ℕ → Delivery → Bool
due now d =
    (d.state == pending && leb d.next_attempt_us now)
    || (d.state == leased && leb d.lease_until_us now)

-- The subscription has a delivery under a lease that runs.
abbrev pub busy : ℕ → ℕ → Delivery → Bool
busy now subscription_id d =
    d.subscription_id == subscription_id && d.state == leased && ltb now d.lease_until_us

abbrev pub eligible : ℕ → List Delivery → Delivery → Bool
eligible now ds d = due now d && not (exists_where (busy now d.subscription_id) ds)

-- ORDER BY next_attempt_us, delivery_id
abbrev pub before : Delivery → Delivery → Bool
before a b =
    ltb a.next_attempt_us b.next_attempt_us
    || (a.next_attempt_us == b.next_attempt_us && ltb a.delivery_id b.delivery_id)

abbrev pub lease_row : ℕ → ℕ → Delivery → Delivery
lease_row token until d = record d {
  state = leased;
  lease_token = some token;
  lease_epoch = d.lease_epoch + 1;
  lease_until_us = until;
  attempts = d.attempts + 1;
}

abbrev pub claimed : ℕ → ℕ → Delivery → ChangeEvent → EventDelivery
claimed token until d e = record {
  delivery_id = d.delivery_id;
  subscription_id = d.subscription_id;
  event = e;
  lease = record { token = token; epoch = d.lease_epoch + 1; until_us = until };
  attempts = d.attempts + 1;
}

unfoldable pub claim_row :
    ℕ → ℕ → Delivery → Outbox → Outbox × Result CoreError (Option EventDelivery)
unfolding get
claim_row token until d s = elim (get d.event_id s) [
  | none ↦ (s, err memory_error)
  | some e ↦ (
    record s {
      deliveries =
          update_where (λ r. r.delivery_id == d.delivery_id) (lease_row token until) s.deliveries;
    },
    ok (some (claimed token until d e)),
  )
]

unfoldable pub claim_due : ℕ → ℕ → ℕ → Outbox → Outbox × Result CoreError (Option EventDelivery)
unfolding lease_until claim_row
claim_due token now duration_us s = elim (lease_until now duration_us) [
  | err e ↦ (s, err e)
  | ok until ↦ elim (earliest before (eligible now s.deliveries) s.deliveries) [
    | none ↦ (s, ok none)
    | some d ↦ claim_row token until d s
  ]
]

-- The lease that a caller presents is the one on the row.
abbrev pub holds : EventDelivery → Delivery → Bool
holds d r =
    r.delivery_id == d.delivery_id
    && r.lease_token == some d.lease.token
    && r.lease_epoch == d.lease.epoch

abbrev pub completes : EventDelivery → ℕ → Delivery → Bool
completes d now r =
    holds d r && (r.state == done || (r.state == leased && ltb now r.lease_until_us))

-- `changed == 1` says whether the caller's lease held.
pub complete : EventDelivery → ℕ → Outbox → Outbox × Bool
complete d now s = (
  record s {
    deliveries = update_where (completes d now) (λ r. record r { state = done }) s.deliveries;
  },
  count_where (completes d now) s.deliveries == 1,
)

abbrev pub retries : EventDelivery → ℕ → Delivery → Bool
retries d now r = holds d r && r.state == leased && ltb now r.lease_until_us

abbrev pub retry_row : ℕ → String → Bool → Delivery → Delivery
retry_row next_attempt_us error is_dead r = record r {
  state = if is_dead then dead else pending;
  next_attempt_us = next_attempt_us;
  last_error = some (first_chars 2048 error);
}

pub retry : EventDelivery → ℕ → ℕ → String → Bool → Outbox → Outbox × Bool
retry d now next_attempt_us error is_dead s = (
  record s {
    deliveries =
        update_where (retries d now) (retry_row next_attempt_us error is_dead) s.deliveries;
  },
  count_where (retries d now) s.deliveries == 1,
)
