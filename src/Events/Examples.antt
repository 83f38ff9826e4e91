-- ===== src/Events/Examples.antt =====
-- Tests of the outbox, and its theorems at concrete inputs.
use mcpmem.Prelude.{
  earliest, ℕ, ◌≡◌, refl, true, false, ◌≢◌, some, none, [], ◌∷◌, arith, ℕ_discrete, inl, All, ok,
}
use mcpmem.Events.Records.{
  Outbox, ChangeEvent, EventDelivery, new_delivery, create, done, DeliveryState-discrete,
  token-discrete,
}
use mcpmem.Events.{claim_due, complete, retry, get, lease_until, claim_row, before}
use mcpmem.Events.Exclusive.{Exclusive, run-Exclusive}
use mcpmem.Events.Fencing.{superseded_lease_void}
use mcpmem.Events.Finished.{Stands, finished_stays}
use mcpmem.Events.Trace.{enqueues, claims, run}

abbrev event : ChangeEvent
event = record {
  event_id = 7;
  operation = create;
  before = none;
  after = some "Person";
  origin = "cli";
}

abbrev queued : Outbox
queued = record { events = event ∷ []; deliveries = new_delivery 1 7 5 ∷ new_delivery 2 8 5 ∷ [] }

abbrev handed : ℕ → ℕ → ℕ → EventDelivery
handed token epoch until = record {
  delivery_id = 1;
  subscription_id = 5;
  event = event;
  lease = record { token = token; epoch = epoch; until_us = until };
  attempts = epoch;
}

first_claim : (claim_due 50 10 100 queued).1 ≡ ok (some (handed 50 1 110))
unfolding claim_due lease_until earliest claim_row get ℕ_discrete DeliveryState-discrete
first_claim = refl

abbrev first : Outbox
first = (claim_due 50 10 100 queued).0

-- The subscription has a running lease, so the second delivery waits.
busy_claim : (claim_due 51 20 100 first).1 ≡ ok none
unfolding claim_due lease_until earliest claim_row get ℕ_discrete DeliveryState-discrete
busy_claim = refl

-- The lease has run out, so the same delivery is claimed again.
second_claim : (claim_due 51 120 100 first).1 ≡ ok (some (handed 51 2 220))
unfolding claim_due lease_until earliest claim_row get ℕ_discrete DeliveryState-discrete
second_claim = refl

abbrev second : Outbox
second = (claim_due 51 120 100 first).0

superseded_lease_void_example :
    (complete (handed 50 1 110) 121 second ≡ (second, false))
    × (retry (handed 50 1 110) 121 500 "late" true second ≡ (second, false))
unfolding run
superseded_lease_void_example =
    superseded_lease_void 50 10 100 queued (handed 50 1 110) [] 51 120 100 (handed 51 2 220) [] 121
      500 "late" true (((λ e. ground arith), tt), (tt, tt)) first_claim tt second_claim refl tt

run-Exclusive_example :
    Exclusive 120 (run (enqueues 3 7 6 ∷ claims 50 10 100 ∷ claims 51 120 100 ∷ []) queued)
unfolding ℕ_discrete DeliveryState-discrete
run-Exclusive_example =
    run-Exclusive 0 (enqueues 3 7 6 ∷ claims 50 10 100 ∷ claims 51 120 100 ∷ []) queued
      (refl, (omega arith, (omega arith, tt)))
      (record { single = λ sub. ground arith; keyed = (((λ e. ground arith), tt), (tt, tt)) })

abbrev finished : Outbox
finished = (complete (handed 50 1 110) 20 first).0

finished_stays_example :
    All (Stands done 1) (run (claims 52 200 100 ∷ []) finished).deliveries
    × ((d : EventDelivery)
        → (claim_due 53 400 100 (run (claims 52 200 100 ∷ []) finished)).1 ≡ ok (some d)
        → d.delivery_id ≢ 1)
unfolding complete claim_due lease_until earliest claim_row get ℕ_discrete DeliveryState-discrete
    token-discrete
finished_stays_example =
    finished_stays done 1 (claims 52 200 100 ∷ []) finished 53 400 100 (inl refl) (tt, tt)
      (λ _. refl, (λ e. ground arith, tt))
