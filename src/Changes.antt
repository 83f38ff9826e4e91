-- ===== src/Changes.antt =====
-- crates/mcpmem-core/src/events.rs: persist_changes, which records a committed change set, gives it to
-- the index and to the subscriptions; crates/mcpmem-core/src/mutation.rs: the provenance of a change.
-- The graph's own tables, which the change set comes from, are not modelled. The caller's transaction
-- drops everything on an error. The n-th Uuid that a call draws is `draw n`, and the n-th reading of
-- the clock `clock n`.
pub mod Records
pub mod Synced
mod Examples
use mcpmem.Prelude.{
  ℕ, suc, ◌+◌, Bool, true, false, ◌&&◌, ◌||◌, not, String, Option, none, some, List, [], ◌∷◌, ltb,
  ◌==◌, nat_eq, text_eq, if◌then◌else◌, Result, ok, err, first_where, exists_where, update_where,
  is_blank, has_control, byte_len,
}
use mcpmem.Events.Records.{CoreError, invalid_params, memory_error, io_error, ChangeEvent, Outbox}
use mcpmem.Subscriptions.{enqueue_matching}
use mcpmem.Index.Records.{RevisionRow, Index}
use mcpmem.Index.{enqueue_change, nil}
use Records.*

abbrev pub is_bad_key : Option String → Bool
is_bad_key none = false
is_bad_key (some key) = key == "" || ltb 128 (byte_len key) || has_control key

abbrev pub is_nil : Option ℕ → Bool
is_nil none = false
is_nil (some id) = id == nil

abbrev pub is_some : Option ℕ → Bool
is_some none = false
is_some (some id) = true

abbrev pub differ : Bool → Bool → Bool
differ a b = (a && not b) || (not a && b)

unfoldable pub validate : MutationContext → Result CoreError MutationContext
validate c =
    if is_blank c.actor
      || ltb 256 (byte_len c.actor)
      || is_blank c.origin
      || ltb 256 (byte_len c.origin)
      || has_control c.actor
      || has_control c.origin
      || c.correlation_id == nil
      || ltb 15 c.hop_count
      || is_nil c.causation_id
      || differ (ltb 0 c.hop_count) (is_some c.causation_id)
      || is_bad_key c.idempotency_key
    then err invalid_params
    else ok c

-- `after`, or else `before`.
abbrev pub snapshot : EntityChange → Option EntitySnapshot
snapshot change = elim change.after [ some after ↦ some after | none ↦ change.before ]

abbrev pub is_deleted : EntityChange → Bool
is_deleted change = elim change.after [ some after ↦ false | none ↦ true ]

abbrev pub has_id : ℕ → RevisionRow → Bool
has_id entity_id r = r.entity_id == entity_id

abbrev pub new_revision : ℕ → Bool → RevisionRow
new_revision entity_id deleted = record { entity_id = entity_id; revision = 1; deleted = deleted }

-- The current revision, or the first one, which is inserted.
abbrev pub current : ℕ → List RevisionRow → List RevisionRow × ℕ
current entity_id revisions = elim (first_where (has_id entity_id) revisions) [
  | some r ↦ (revisions, r.revision)
  | none ↦ (new_revision entity_id false ∷ revisions, 1)
]

-- INSERT … ON CONFLICT(entity_id) DO UPDATE SET revision=revision+1 … RETURNING revision
abbrev pub bumped : ℕ → Bool → List RevisionRow → List RevisionRow × ℕ
bumped entity_id deleted revisions = elim (first_where (has_id entity_id) revisions) [
  | some r ↦ (
    update_where (has_id entity_id) (λ r. record r { revision = r.revision + 1; deleted = deleted })
        revisions,
    r.revision + 1,
  )
  | none ↦ (new_revision entity_id deleted ∷ revisions, 1)
]

abbrev pub type_of : Option EntitySnapshot → Option String
type_of none = none
type_of (some s) = some s.entity_type

abbrev pub event_of : ℕ → MutationContext → EntityChange → ChangeEvent
event_of event_id context change = record {
  event_id = event_id;
  operation = change.operation;
  before = type_of change.before;
  after = type_of change.after;
  origin = context.origin;
}

-- The change's event, after its revision is known.
abbrev pub record_event :
    ℕ → ℕ → ℕ → MutationContext → EntityChange → EntitySnapshot → ℕ → Store → Store
record_event event_id transaction_id now context change s revision st = record st {
  log =
      record {
        event_id = event_id;
        transaction_id = transaction_id;
        entity_id = s.entity_id;
        entity_revision = revision;
        occurred_at_us = now;
      }
      ∷ st.log;
  outbox = record (st.outbox) { events = event_of event_id context change ∷ st.outbox.events };
}

abbrev pub queue : Bool → EntityChange → EntitySnapshot → ℕ → Store → Store
queue quiet change s revision st =
    if quiet
    then st
    else record st { index = enqueue_change s.entity_id revision (is_deleted change) st.index }

abbrev pub announce : (ℕ → ℕ) → ChangeEvent → Store → Result CoreError Store
announce draw event st =
    let (outbox, inserted) = enqueue_matching draw event st.subscriptions st.outbox in
    elim inserted [ err e ↦ err e | ok _ ↦ ok (record st { outbox = outbox }) ]

-- Attribute writes and relation observations are quiet.
abbrev pub is_quiet : Bool → EntityChange → Bool
is_quiet quiet change = quiet || change.relation_change

abbrev pub revise : Bool → EntityChange → EntitySnapshot → List RevisionRow → List RevisionRow × ℕ
revise quiet change s revisions =
    if is_quiet quiet change
    then current s.entity_id revisions
    else bumped s.entity_id (is_deleted change) revisions

abbrev pub persist_snapshot :
    ℕ
    → (ℕ → ℕ)
    → ℕ
    → ℕ
    → MutationContext
    → Bool
    → EntityChange
    → EntitySnapshot
    → Store
    → Result CoreError Store
persist_snapshot event_id draw now transaction_id context quiet change s st =
    let (revisions, revision) = revise quiet change s st.revisions in
    if exists_where (λ e. e.event_id == event_id) st.log
    then err io_error
    else announce draw (event_of event_id context change) (
        queue (is_quiet quiet change) change s revision (
          record_event event_id transaction_id now context change s revision
            (record st { revisions = revisions })))

unfoldable pub persist_change :
    ℕ → (ℕ → ℕ) → ℕ → ℕ → MutationContext → Bool → EntityChange → Store → Result CoreError Store
unfolding enqueue_change
persist_change event_id draw now transaction_id context quiet change st = elim (snapshot change) [
  | none ↦ err memory_error
  | some s ↦ persist_snapshot event_id draw now transaction_id context quiet change s st
]

unfoldable pub persist_from :
    (ℕ → ℕ)
    → (ℕ → ℕ → ℕ)
    → (ℕ → ℕ)
    → ℕ
    → MutationContext
    → Bool
    → List EntityChange
    → Store
    → Result CoreError Store
unfolding persist_change
persist_from draw deliveries clock transaction_id context quiet [] st = ok st
persist_from draw deliveries clock transaction_id context quiet (change ∷ changes) st =
    elim (persist_change (draw 0) (deliveries 0) (clock 0) transaction_id context quiet change st) [
      | err e ↦ err e
      | ok st' ↦
          persist_from (λ n. draw (suc n)) (λ n. deliveries (suc n)) (λ n. clock (suc n))
            transaction_id context quiet changes st'
    ]

unfoldable pub persist_changes :
    (ℕ → ℕ)
    → (ℕ → ℕ → ℕ)
    → (ℕ → ℕ)
    → CommittedChangeSet
    → MutationContext
    → Bool
    → Store
    → Result CoreError Store
unfolding persist_from
persist_changes draw deliveries clock set context quiet st =
    persist_from draw deliveries clock set.transaction_id context quiet set.changes st
