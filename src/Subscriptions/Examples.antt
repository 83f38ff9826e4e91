-- ===== src/Subscriptions/Examples.antt =====
-- Tests of the subscriptions, and their theorems at concrete inputs.
use mcpmem.Prelude.{
  ◌+◌, ◌≡◌, refl, true, false, ◌||◌, ◌&&◌, some, none, List, [], ◌∷◌, ℕ_discrete, String-discrete,
  is_blank, has_control, ok, exists_where, nat_eq,
}
use mcpmem.Events.Records.{Outbox, ChangeEvent, create, ChangeOperation-discrete}
use mcpmem.Events.{insert_delivery}
use mcpmem.Subscriptions.Records.{WebhookSubscription, Row}
use mcpmem.Subscriptions.{
  upsert, validate, get, enqueue_matching, matching, insert_all, wants, has_id,
}
use mcpmem.Subscriptions.Rows.{upsert-get}
use mcpmem.Subscriptions.Delivers.{is_for, enqueue_matching_exact}

abbrev notes : WebhookSubscription
notes = record {
  subscription_id = 5;
  endpoint = "https://hooks.example";
  event_operations = create ∷ [];
  entity_types = [];
  ignored_origins = "sync" ∷ [];
  consumer_origin = "notes";
  secret_ref = "key";
  enabled = true;
}

abbrev rows : List Row
rows = record { subscription = notes; created_at_us = 1; updated_at_us = 1 } ∷ []

abbrev event : ChangeEvent
event = record {
  event_id = 7;
  operation = create;
  before = none;
  after = some "Person";
  origin = "cli";
}

abbrev start : Outbox
start = record { events = event ∷ []; deliveries = [] }

accepted : (upsert 9 notes rows).1 ≡ ok tt
unfolding upsert validate ℕ_discrete is_blank has_control
accepted = refl

upsert-get_example : get 5 (upsert 9 notes rows).0 ≡ some notes
unfolding ℕ_discrete
upsert-get_example = upsert-get 9 5 notes rows accepted

own_event : wants (record event { origin = "notes" }) "Person" notes ≡ false
unfolding wants String-discrete ChangeOperation-discrete
own_event = refl

enqueue_matching_exact_example :
    exists_where (is_for 7 5) (enqueue_matching (λ n. n + 40) event rows start).0.deliveries ≡ (
      exists_where (is_for 7 5) start.deliveries
      || exists_where
          (λ r. has_id 5 r && r.subscription.enabled && wants event "Person" r.subscription)
          rows)
enqueue_matching_exact_example =
    enqueue_matching_exact (λ n. n + 40) event "Person" rows start 5 refl

one_row : (enqueue_matching (λ n. n + 40) event rows start).1 ≡ ok 1
unfolding enqueue_matching matching insert_all wants String-discrete ChangeOperation-discrete
    ℕ_discrete insert_delivery
one_row = refl
