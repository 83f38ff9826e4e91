-- ===== src/Changes/Records.antt =====
-- The rows and values of a committed change set: mutation.rs, events.rs, 0001_change_events.sql.
use mcpmem.Prelude.{ℕ, String, Bool, Option, List}
use mcpmem.Events.Records.{ChangeOperation, Outbox}
use mcpmem.Subscriptions.Records.{Row}
use mcpmem.Index.Records.{RevisionRow, Index}

pub record MutationContext : Type 0 where
  pub actor : String
  pub origin : String
  pub correlation_id : ℕ
  pub causation_id : Option ℕ
  pub hop_count : ℕ
  pub idempotency_key : Option String

-- What is read of a snapshot.
pub record EntitySnapshot : Type 0 where
  pub entity_id : ℕ
  pub entity_type : String

-- `relation_change` says whether the change carries one.
pub record EntityChange : Type 0 where
  pub operation : ChangeOperation
  pub before : Option EntitySnapshot
  pub after : Option EntitySnapshot
  pub relation_change : Bool

pub record CommittedChangeSet : Type 0 where
  pub transaction_id : ℕ
  pub changes : List EntityChange

-- The columns of a row of `change_event`; the outbox has the payload.
pub record EventRow : Type 0 where
  pub event_id : ℕ
  pub transaction_id : ℕ
  pub entity_id : ℕ
  pub entity_revision : ℕ
  pub occurred_at_us : ℕ

-- The tables that a change set writes, and the subscriptions.
pub record Store : Type 0 where
  pub revisions : List RevisionRow
  pub log : List EventRow
  pub outbox : Outbox
  pub index : Index
  pub subscriptions : List Row
