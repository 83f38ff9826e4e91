-- ===== src/Changes/Examples.antt =====
-- A change set at a concrete input: an entity with a job in the profile 5 is edited.
use mcpmem.Prelude.{
  ℕ_discrete, ◌≡◌, refl, String-discrete, false, none, some, [], ◌∷◌, ok, err, Result, is_blank,
  is_whitespace, has_control, is_control,
}
use mcpmem.Events.Records.{ChangeOperation, CoreError, invalid_params}
use mcpmem.Subscriptions.{enqueue_matching, matching, insert_all}
use mcpmem.Index.Records.{
  OwnerKind, IndexOperation, JobState, RegistryState, OwnerKind-discrete, RegistryState-discrete,
}
use mcpmem.Index.{fresh_job}
use mcpmem.Changes.Records.{Store, EntityChange, MutationContext, CommittedChangeSet}
use mcpmem.Changes.{persist_changes, validate}
use mcpmem.Changes.Synced.{IsSynced, persist_changes-IsSynced}

abbrev context : MutationContext
context = record {
  actor = "ann";
  origin = "mcp";
  correlation_id = 1;
  causation_id = none;
  hop_count = 0;
  idempotency_key = none;
}

valid : validate context ≡ ok context
unfolding validate is_blank is_whitespace has_control is_control ℕ_discrete String-discrete
valid = refl

orphan_hop : validate (record context { hop_count = 1 }) ≡ err invalid_params
unfolding validate is_blank is_whitespace has_control is_control ℕ_discrete String-discrete
orphan_hop = refl

abbrev edit : EntityChange
edit = record {
  operation = ChangeOperation.update;
  before = some (record { entity_id = 3; entity_type = "person" });
  after = some (record { entity_id = 3; entity_type = "person" });
  relation_change = false;
}

abbrev edits : CommittedChangeSet
edits = record { transaction_id = 8; changes = edit ∷ edit ∷ [] }

abbrev store : Store
store = record {
  revisions = record { entity_id = 3; revision = 4; deleted = false } ∷ [];
  log = [];
  outbox = record { events = []; deliveries = [] };
  index = record {
    registry = record {
      state = RegistryState.active;
      serving = some 5;
      candidate = none;
      failure = none;
    };
    profiles = [];
    jobs = fresh_job 5 OwnerKind.entity 3 4 IndexOperation.upsert JobState.done ∷ [];
    vectors = [];
    generations = [];
    kind_generations = [];
  };
  subscriptions = [];
}

abbrev persisted : Result CoreError Store
persisted = persist_changes (λ n. n) (λ n k. k) (λ n. n) edits context false store

abbrev after : Store
after = elim persisted [ ok st ↦ st | err e ↦ store ]

records : persisted ≡ ok after
unfolding persist_changes enqueue_matching matching insert_all ℕ_discrete OwnerKind-discrete
    RegistryState-discrete
records = refl

persist_changes-IsSynced_example : IsSynced after
unfolding ℕ_discrete
persist_changes-IsSynced_example =
    persist_changes-IsSynced (λ n. n) (λ n k. k) (λ n. n) edits context false store after records
      ((λ _ _. refl), tt)
