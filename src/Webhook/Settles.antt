-- ===== src/Webhook/Settles.antt =====
-- crates/mcpmem-webhook/src/lib.rs: every claimed delivery is settled within its lease.
use mcpmem.Prelude.{ℕ, ◌≤◌, ◌<◌, ◌≡◌, true, Option, some, All, ◌⊎◌, ok, nat_eq}
use mcpmem.Events.Records.{Outbox, Delivery, EventDelivery, done, dead, pending}
use mcpmem.Subscriptions.Records.{WebhookSubscription}
use mcpmem.Webhook.Records.{World, Worker, DeliveryReport, DeliveryResponse}
use mcpmem.Webhook.{deliver, is_success, saturating_add}

-- The endpoint of an enabled subscription answered with a status of success.
abbrev pub Delivered : World → Worker → EventDelivery → ℕ → Option WebhookSubscription → Type 0
Delivered w worker d now subscription =
    (x : WebhookSubscription) × (r : DeliveryResponse) × (subscription ≡ some x)
    × (deliver w worker x d now ≡ ok r)
    × (is_success r.status ≡ true)

abbrev pub Waits : ℕ → Delivery → Type 0
Waits now r =
    (saturating_add now 1_000_000 ≤ r.next_attempt_us)
    × (r.next_attempt_us ≤ saturating_add now 3_600_000_000)

abbrev pub Becomes : EventDelivery → (Delivery → Type 0) → Outbox → Type 0
Becomes d P s = All (λ r. r.delivery_id ≡ d.delivery_id → P r) s.deliveries

-- What a report says of the delivery, and what its row has become.
abbrev pub Settled :
    World
    → Worker
    → EventDelivery
    → ℕ
    → Option WebhookSubscription
    → DeliveryReport
    → Outbox
    → Type 0
Settled w worker d now subscription report s =
    ((report.completed ≡ 1)
      × (report.retried ≡ 0)
      × (report.dead ≡ 0)
      × Delivered w worker d now subscription
      × Becomes d (λ r. r.state ≡ done) s)
    ⊎ (((report.completed ≡ 0)
          × (report.retried ≡ 0)
          × (report.dead ≡ 1)
          × Becomes d (λ r. r.state ≡ dead) s)
        ⊎ ((report.completed ≡ 0)
            × (report.retried ≡ 1)
            × (report.dead ≡ 0)
            × (d.attempts < 8)
            × Becomes d (λ r. (r.state ≡ pending) × Waits now r) s))
