-- ===== src/Subscriptions/Records.antt =====
-- The rows of the subscription registry: subscriptions.rs, 0002_webhook_subscriptions.sql.
use mcpmem.Prelude.{ℕ, String, Bool, List}
use mcpmem.Events.Records.{ChangeOperation}

pub record WebhookSubscription : Type 0 where
  pub subscription_id : ℕ
  pub endpoint : String
  pub event_operations : List ChangeOperation
  pub entity_types : List String
  pub ignored_origins : List String
  pub consumer_origin : String
  pub secret_ref : String
  pub enabled : Bool

-- A row of `webhook_subscription`.
pub record Row : Type 0 where
  pub subscription : WebhookSubscription
  pub created_at_us : ℕ
  pub updated_at_us : ℕ
