-- ===== src/Webhook.antt =====
-- crates/mcpmem-webhook/src/lib.rs: the delivery worker.
pub mod Records
pub mod Addresses
pub mod Requests
pub mod Settles
pub mod Audit
mod Examples
use mcpmem.Prelude.{
  map, ℕ, suc, ◌+◌, ◌*◌, min, max, Bool, true, false, ◌&&◌, ◌||◌, not, String, Option, none, some,
  List, [], ◌∷◌, ltb, leb, ◌==◌, nat_eq, text_eq, if◌then◌else◌, Result, ok, err, ◌>>=◌, ◌>>◌,
  refuse_if, length,
}
use mcpmem.Events.Records.{Outbox, EventDelivery, CoreError, i64_max}
use mcpmem.Events.{claim_due, complete, retry}
use mcpmem.Subscriptions.Records.{WebhookSubscription, Row}
use mcpmem.Subscriptions.{get, contains, list}
use Records.*
use Addresses.{is_public, all_public}

abbrev pub max_attempts : ℕ
max_attempts = 8

abbrev pub lease_us : ℕ
lease_us = 30_000_000

-- What an endpoint may not be: the test of `validate_endpoint_inner` on the parsed URL.
abbrev pub is_refused : World → Url → Bool
is_refused w url =
    not (url.scheme == "https")
    || not (is_443 url.port_or_known_default)
    || not (url.username == "")
    || is_some url.password
    || is_some url.fragment
    || not (is_some url.host_str)
    || is_address_host w url.host_str

pub checked : Bool → Url → List IpAddr → Result WorkerError ValidatedEndpoint
checked allow_private url [] = err (policy "endpoint resolution returned no address")
checked allow_private url (ip ∷ more) =
    refuse_if (not allow_private && not (is_public ip))
      (policy "endpoint resolved to non-public address")
    >> refuse_if (not allow_private && not (all_public (ip ∷ more)))
        (policy "endpoint resolution mixes public and non-public addresses")
    >> ok (record { url = url; ip = ip; port = 443 })

pub validate_endpoint_inner :
    World → String → List String → Bool → Result WorkerError ValidatedEndpoint
unfolding checked
validate_endpoint_inner w endpoint allowlist allow_private = parsed (w.parse endpoint) >>= λ url.
    refuse_if (is_refused w url) (policy "endpoint must be https on port 443")
    >> expect_host url.host_str
    >>= λ hostname.
        refuse_if (not (contains allowlist hostname))
          (policy "endpoint hostname is not allowlisted")
        >> w.resolve hostname
        >>= λ addresses. checked allow_private url addresses

abbrev pub policy_endpoint : World → Worker → String → Result WorkerError ValidatedEndpoint
policy_endpoint w worker endpoint =
    if worker.allow_private_addresses
    then validate_endpoint_inner w endpoint worker.allowlist true
    else validate_endpoint_inner w endpoint worker.allowlist false

pub envelope : World → Worker → EventDelivery → Result WorkerError (List ℕ)
envelope w worker d = w.encode d >>= λ body.
    refuse_if (ltb worker.max_body_bytes (length body))
      (policy "envelope exceeds the configured body cap")
    >> ok body

-- `deliver` up to the call of the connector.
pub prepare :
    World
    → Worker
    → WebhookSubscription
    → EventDelivery
    → ℕ
    → Result WorkerError (ValidatedEndpoint × SignedRequest)
unfolding validate_endpoint_inner envelope
prepare w worker subscription d now = policy_endpoint w worker subscription.endpoint >>= λ endpoint.
    envelope w worker d >>= λ body. w.signing_key subscription.secret_ref >>= λ key.
    w.signature key now body >>= λ signature. ok (
      endpoint,
      record {
        body = body;
        event_id = d.event.event_id;
        timestamp_us = now;
        signature = signature;
      },
    )

pub deliver :
    World → Worker → WebhookSubscription → EventDelivery → ℕ → Result WorkerError DeliveryResponse
deliver w worker subscription d now =
    prepare w worker subscription d now >>= λ (endpoint, request). w.send endpoint request

abbrev pub saturating_add : ℕ → ℕ → ℕ
saturating_add a b = min (a + b) i64_max

abbrev pub is_success : ℕ → Bool
is_success status = leb 200 status && ltb status 300

abbrev pub is_dead_status : ℕ → ℕ → Bool
is_dead_status status attempts =
    not (status == 408 || status == 429 || leb 500 status) || leb max_attempts attempts

abbrev pub is_dead_error : WorkerError → ℕ → Bool
is_dead_error (policy m) attempts = true
is_dead_error (secret m) attempts = true
is_dead_error (core m) attempts = leb max_attempts attempts
is_dead_error (delivery m) attempts = leb max_attempts attempts

-- `retry_after_us.unwrap_or(1_000_000).clamp(1_000_000, 3_600_000_000)`
abbrev pub delay_us : Option ℕ → ℕ
delay_us none = 1_000_000
delay_us (some us) = min (max us 1_000_000) 3_600_000_000

pub finish_retry : EventDelivery → ℕ → ℕ → String → Bool → Outbox → Outbox × DeliveryReport
finish_retry d clock next error is_dead s =
    let (s', changed) = retry d clock next error is_dead s in
    (s', if changed then (if is_dead then dead_report else retried_report) else claimed_report)

pub finish_complete : EventDelivery → ℕ → Outbox → Outbox × DeliveryReport
finish_complete d clock s =
    let (s', changed) = complete d clock s in
    (s', if changed then completed_report else claimed_report)

pub finish :
    World
    → Worker
    → EventDelivery
    → ℕ
    → ℕ
    → Option WebhookSubscription
    → Outbox
    → Outbox × DeliveryReport
unfolding deliver finish_retry finish_complete
finish w worker d now clock none s =
    finish_retry d clock (saturating_add now 1_000_000) "policy: subscription missing or disabled"
      true s
finish w worker d now clock (some subscription) s = elim (deliver w worker subscription d now) [
  | ok response ↦
      if is_success response.status
      then finish_complete d clock s
      else finish_retry d clock (saturating_add now (delay_us response.retry_after_us))
          (w.http_text response.status) (is_dead_status response.status d.attempts) s
  | err error ↦
      finish_retry d clock (saturating_add now 1_000_000) (w.error_text error)
        (is_dead_error error d.attempts) s
]

abbrev pub only_enabled : Option WebhookSubscription → Option WebhookSubscription
only_enabled none = none
only_enabled (some s) = if s.enabled then some s else none

-- `clock` is the second reading, which the tables' updates are fenced by.
pub run_once :
    World → Worker → ℕ → ℕ → ℕ → List Row → Outbox → Outbox × Result CoreError DeliveryReport
unfolding finish
run_once w worker token now clock rows s =
    let (s', claim) = claim_due token now worker.lease_us s in
    elim claim [
      | err e ↦ (s', err e)
      | ok none ↦ (s', ok empty_report)
      | ok (some d) ↦
          let (s'', report) =
            finish w worker d now clock (only_enabled (get d.subscription_id rows)) s' in
          (s'', ok report)
    ]

-- Whether the delivery-time policy would let any attempt of the subscription through.
pub audit_outcome : World → Worker → WebhookSubscription → Result String (Unit {0})
unfolding validate_endpoint_inner
audit_outcome w worker subscription =
    if not subscription.enabled
    then err "subscription is disabled"
    else elim (policy_endpoint w worker subscription.endpoint >>= λ _.
        w.signing_key subscription.secret_ref) [ err e ↦ err (w.error_text e) | ok _ ↦ ok tt ]

abbrev pub audit : World → Worker → WebhookSubscription → SubscriptionAudit
audit w worker subscription = record {
  subscription_id = subscription.subscription_id;
  endpoint = subscription.endpoint;
  secret_ref = subscription.secret_ref;
  enabled = subscription.enabled;
  outcome = audit_outcome w worker subscription;
}

pub audit_subscriptions : World → Worker → List Row → List SubscriptionAudit
unfolding audit_outcome
audit_subscriptions w worker rows = map (audit w worker) (list rows)
