-- ===== src/Webhook/Examples.antt =====
-- Tests of the worker, and its theorems at concrete inputs.
use mcpmem.Prelude.{
  err, not, ℕ_discrete, ◌≡◌, ◌≤◌, refl, String, String-discrete, true, false, some, none, List, [],
  ◌∷◌, arith, ok, length,
}
use mcpmem.Events.Records.{Outbox, ChangeEvent, EventDelivery, new_delivery, create}
use mcpmem.Events.{get as event_get}
use mcpmem.Subscriptions.Records.{WebhookSubscription, Row}
use mcpmem.Subscriptions.{get}
use mcpmem.Webhook.Records.{WorkerError, World, Worker, Url, v4, ValidatedEndpoint, SignedRequest}
use mcpmem.Webhook.{audit_outcome, deliver, prepare, validate_endpoint_inner, checked, envelope}
use mcpmem.Webhook.Addresses.{
  is_public, mapped, is_public-mapped, is_public-v4, is_reserved, number,
}
use mcpmem.Webhook.Audit.{audit_outcome_refuses}
use mcpmem.Webhook.Requests.{Accepted, prepare_sound}

abbrev url : Url
url = record {
  scheme = "https";
  port_or_known_default = some 443;
  username = "";
  password = none;
  fragment = none;
  host_str = some "hooks.example";
}

abbrev world : World
world = record {
  parse = λ _. ok url;
  is_address = λ _. false;
  resolve = λ _. ok (v4 93 184 216 34 ∷ []);
  signing_key = λ _. ok "key";
  encode = λ _. ok (123 ∷ 125 ∷ []);
  signature = λ _ _ _. ok "mac";
  send = λ _ _. ok (record { status = 503; retry_after_us = none });
  http_text = λ _. "http";
  error_text = λ _. "error";
}

abbrev worker : Worker
worker = record {
  allowlist = "hooks.example" ∷ [];
  lease_us = 30_000_000;
  allow_private_addresses = false;
  max_body_bytes = 1_048_576;
}

abbrev subscription : WebhookSubscription
subscription = record {
  subscription_id = 5;
  endpoint = "https://hooks.example";
  event_operations = [];
  entity_types = [];
  ignored_origins = [];
  consumer_origin = "notes";
  secret_ref = "key";
  enabled = true;
}

abbrev rows : List Row
rows = record { subscription = subscription; created_at_us = 1; updated_at_us = 1 } ∷ []

abbrev event : ChangeEvent
event = record {
  event_id = 7;
  operation = create;
  before = none;
  after = some "Person";
  origin = "cli";
}

abbrev queued : Outbox
queued = record { events = event ∷ []; deliveries = new_delivery 1 7 5 ∷ [] }

abbrev handed : EventDelivery
handed = record {
  delivery_id = 1;
  subscription_id = 5;
  event = event;
  lease = record { token = 50; epoch = 1; until_us = 30_000_010 };
  attempts = 1;
}

abbrev endpoint : ValidatedEndpoint
endpoint = record { url = url; ip = v4 93 184 216 34; port = 443 }

abbrev request : SignedRequest
request = record { body = 123 ∷ 125 ∷ []; event_id = 7; timestamp_us = 10; signature = "mac" }

prepared : prepare world worker subscription handed 10 ≡ ok (endpoint, request)
unfolding prepare validate_endpoint_inner checked envelope ℕ_discrete String-discrete
prepared = refl

prepare_sound_example :
    Accepted world worker endpoint
    × (world.encode handed ≡ ok (123 ∷ 125 ∷ []))
    × (length request.body ≤ 1_048_576)
    × ((key : String) × (world.signing_key "key" ≡ ok key)
        × (world.signature key 10 request.body ≡ ok "mac"))
    × (request.event_id ≡ event.event_id)
    × (request.timestamp_us ≡ 10)
prepare_sound_example = prepare_sound world worker subscription handed 10 endpoint request prepared

-- The loopback address 127.0.0.1 is refused, and its mapped form is not.
loopback : is_public (v4 127 0 0 1) ≡ false
unfolding ℕ_discrete
loopback = refl

is_public-mapped_example : is_public (mapped 127 0 0 1) ≡ true
is_public-mapped_example = is_public-mapped 127 0 0 1

is_public-v4_example : is_public (v4 172 31 0 1) ≡ not (is_reserved (number 172 31 0 1))
is_public-v4_example = is_public-v4 172 31 0 1 (omega arith) (omega arith) (omega arith)

abbrev listed_nowhere : Worker
listed_nowhere = record worker { allowlist = [] }

refused : audit_outcome world listed_nowhere subscription ≡ err "error"
unfolding audit_outcome validate_endpoint_inner checked String-discrete ℕ_discrete
refused = refl

-- The same answers, and a longer envelope.
abbrev later : World
later = record world { encode = λ _. ok (91 ∷ 49 ∷ 93 ∷ []) }

audit_outcome_refuses_example :
    (e : WorkerError) × (prepare later listed_nowhere subscription handed 10 ≡ err e)
    × (deliver later listed_nowhere subscription handed 10 ≡ err e)
audit_outcome_refuses_example =
    audit_outcome_refuses world later listed_nowhere subscription "error" handed 10 refl refused
      (record { parse = refl; is_address = λ _. refl; resolve = λ _. refl; signing_key = refl })
