-- ===== src/Events/Records.antt =====
-- The rows and values of the delivery outbox: events.rs, mutation.rs, 0001_change_events.sql.
use Prim.Native.Nat.{zero}
use Prim.Native.String.{◌∷◌, []}
use mcpmem.Prelude.{ℕ, suc, ◌-◌, ◌^◌, String, Option, none, List, Eq, ℕ_discrete}

-- The variants of `MCSError` that these components return.
pub data CoreError : Type 0 where
  invalid_params memory_error io_error : CoreError

abbrev pub i64_max : ℕ
i64_max = 2 ^ 63 - 1

pub data ChangeOperation : Type 0 where
  create update delete rename : ChangeOperation

-- What the outbox reads of an event. Of the snapshots it reads the entity type, of the provenance
-- the origin.
pub record ChangeEvent : Type 0 where
  pub event_id : ℕ
  pub operation : ChangeOperation
  pub before : Option String
  pub after : Option String
  pub origin : String

pub record Lease : Type 0 where
  pub token : ℕ
  pub epoch : ℕ
  pub until_us : ℕ

pub record EventDelivery : Type 0 where
  pub delivery_id : ℕ
  pub subscription_id : ℕ
  pub event : ChangeEvent
  pub lease : Lease
  pub attempts : ℕ

pub data DeliveryState : Type 0 where
  pending leased done dead : DeliveryState

unfoldable pub DeliveryState-discrete : Discrete DeliveryState
DeliveryState-discrete = hlevel

instance abbrev pub state_eq : Eq DeliveryState
state_eq = record { decide = DeliveryState-discrete }

unfoldable pub ChangeOperation-discrete : Discrete ChangeOperation
ChangeOperation-discrete = hlevel

instance abbrev pub operation_eq : Eq ChangeOperation
operation_eq = record { decide = ChangeOperation-discrete }

unfoldable pub token-discrete : Discrete (Option ℕ)
token-discrete = hlevel ℕ_discrete

instance abbrev pub token_eq : Eq (Option ℕ)
token_eq = record { decide = token-discrete }

-- A row of `event_outbox`.
pub record Delivery : Type 0 where
  pub delivery_id : ℕ
  pub event_id : ℕ
  pub subscription_id : ℕ
  pub state : DeliveryState
  pub lease_token : Option ℕ
  pub lease_epoch : ℕ
  pub lease_until_us : ℕ
  pub attempts : ℕ
  pub next_attempt_us : ℕ
  pub last_error : Option String

abbrev pub new_delivery : ℕ → ℕ → ℕ → Delivery
new_delivery delivery_id event_id subscription_id = record {
  delivery_id = delivery_id;
  event_id = event_id;
  subscription_id = subscription_id;
  state = pending;
  lease_token = none;
  lease_epoch = 0;
  lease_until_us = 0;
  attempts = 0;
  next_attempt_us = 0;
  last_error = none;
}

pub record Outbox : Type 0 where
  pub events : List ChangeEvent
  pub deliveries : List Delivery

-- `error.chars().take(n).collect()`
pub first_chars : ℕ → String → String
first_chars zero s = []
first_chars (suc n) [] = []
first_chars (suc n) (c ∷ s) = c ∷ first_chars n s
