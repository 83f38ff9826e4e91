-- ===== src/Changes/Synced.antt =====
-- crates/mcpmem-core/src/events.rs: the revisions of the entities and those of their index jobs.
use mcpmem.Prelude.{
  ℕ, suc, ◌+◌, ◌≡◌, ◌≢◌, refl, sym, ap, ◌∙◌, subst, Bool, true, false, Option, none, some, List, [],
  ◌∷◌, arith, inl, inr, Bool-cases, Option-cases, ok, Result-cases, ◌==◌, nat_eq, ℕ_discrete,
  first_where, exists_where, update_where, first_where-test, first_where-update, All, All-map,
  if◌then◌else◌,
}
use mcpmem.Events.Records.{ChangeEvent}
use mcpmem.Subscriptions.{enqueue_matching}
use mcpmem.Index.Records.{
  Index, JobRow, entity, owner_kind_eq, RevisionRow, Registry, IndexOperation,
}
use mcpmem.Index.{is_job, enqueue_change, enqueue_chunk_change, serving_profile_ids}
use mcpmem.Index.Requeue.{Queued, enqueue_for-All, served_job}
use mcpmem.Index.Profiles.Untouched.{enqueue_for-registry}
use mcpmem.Changes.Records.{
  EntityChange, EntitySnapshot, MutationContext, CommittedChangeSet, Store,
}
use mcpmem.Changes.{
  has_id, current, bumped, revise, queue, announce, record_event, snapshot, is_deleted, is_quiet,
  event_of, persist_change, persist_from, persist_changes, new_revision,
}

abbrev pub revision_of : ℕ → List RevisionRow → Option ℕ
revision_of id revisions = elim (first_where (has_id id) revisions) [
  | none ↦ none
  | some r ↦ some r.revision
]

abbrev pub serves : Registry → ℕ → Bool
serves registry profile = exists_where (λ p. p == profile) (serving_profile_ids registry)

-- A job for an entity, in a profile that the store serves or rebuilds, is at the entity's revision.
abbrev pub AtRevision : Registry → List RevisionRow → JobRow → Type 0
AtRevision registry revisions j =
    j.owner_kind ≡ entity
    → serves registry j.profile_id ≡ true
    → revision_of j.owner_id revisions ≡ some j.owner_revision

abbrev pub IsSynced : Store → Type 0
IsSynced st = All (AtRevision st.index.registry st.revisions) st.index.jobs

abbrev pub bump : Bool → RevisionRow → RevisionRow
bump deleted r = record r { revision = r.revision + 1; deleted = deleted }

bump-other :
    (id other : ℕ) (deleted : Bool) (revisions : List RevisionRow)
    → other ≢ id
    → revision_of other (update_where (has_id id) (bump deleted) revisions)
      ≡ revision_of other revisions
bump-other id other deleted [] ne = refl
bump-other id other deleted (r ∷ revisions) ne =
    ground (arith, ne, bump-other id other deleted revisions ne)

bump-own :
    (id : ℕ) (deleted : Bool) (revisions : List RevisionRow) (r : RevisionRow)
    → first_where (has_id id) revisions ≡ some r
    → revision_of id (update_where (has_id id) (bump deleted) revisions) ≡ some (r.revision + 1)
bump-own id deleted revisions r found =
    let hit = first_where-test (has_id id) revisions found in
    let after =
      first_where-update (has_id id) (has_id id) (bump deleted) revisions r (λ _. refl) found in
    rw (revision_of, after, hit) refl

-- A row in front of the others is read by its own entity only.
new-other :
    (id other : ℕ) (deleted : Bool) (revisions : List RevisionRow)
    → other ≢ id
    → revision_of other (new_revision id deleted ∷ revisions) ≡ revision_of other revisions
new-other id other deleted revisions ne =
    let miss : (id == other) ≡ false = ground (arith, ne) in rw (revision_of, miss) refl

new-own :
    (id : ℕ) (deleted : Bool) (revisions : List RevisionRow)
    → revision_of id (new_revision id deleted ∷ revisions) ≡ some 1
new-own id deleted revisions =
    let hit : (id == id) ≡ true = ground arith in rw (revision_of, hit) refl

bumped-other :
    (id other : ℕ) (deleted : Bool) (revisions : List RevisionRow)
    → other ≢ id
    → revision_of other (bumped id deleted revisions).0 ≡ revision_of other revisions
bumped-other id other deleted revisions ne =
    elim (Option-cases (first_where (has_id id) revisions)) [
      | inl missing ↦ rw (bumped, missing) (new-other id other deleted revisions ne)
      | inr (r, found) ↦ rw (bumped, found) (bump-other id other deleted revisions ne)
    ]

bumped-own :
    (id : ℕ) (deleted : Bool) (revisions : List RevisionRow)
    → revision_of id (bumped id deleted revisions).0 ≡ some (bumped id deleted revisions).1
bumped-own id deleted revisions = elim (Option-cases (first_where (has_id id) revisions)) [
  | inl missing ↦ rw (bumped, missing) (new-own id deleted revisions)
  | inr (r, found) ↦ rw (bumped, found) (bump-own id deleted revisions r found)
]

-- A quiet change leaves what revisions there are.
current-kept :
    (id other revision : ℕ) (revisions : List RevisionRow)
    → revision_of other revisions ≡ some revision
    → revision_of other (current id revisions).0 ≡ some revision
current-kept id other revision revisions h =
    elim (Option-cases (first_where (has_id id) revisions)) [
      | inl missing ↦ elim (ℕ_discrete other id) [
        | yes same ↦
            let nothing : revision_of other revisions ≡ none =
              subst (λ i. revision_of i revisions ≡ none) (sym same)
                (rw (revision_of, missing) refl) in
            let no : ⊥ = ground (arith, nothing, h) in absurd no
        | no ne ↦ rw (current, missing) (new-other id other false revisions ne ∙ h)
      ]
      | inr (r, found) ↦ rw (current, found) h
    ]

-- The jobs that a change of an entity leaves.
enqueue_change-synced :
    (id revision : ℕ) (deleted : Bool) (before after : List RevisionRow) (x : Index)
    → revision_of id after ≡ some revision
    → ((other : ℕ) → other ≢ id → revision_of other after ≡ revision_of other before)
    → All (AtRevision x.registry before) x.jobs
    → let x' = enqueue_change id revision deleted x in
      (x'.registry ≡ x.registry) × All (AtRevision x'.registry after) x'.jobs
unfolding enqueue_change enqueue_chunk_change
enqueue_change-synced id revision deleted before after x own others a =
    let operation = if deleted then IndexOperation.delete else IndexOperation.upsert in
    let kept =
      enqueue_for-registry (serving_profile_ids x.registry) entity id revision operation x in
    (
      kept,
      subst (λ q. All (AtRevision q after) (enqueue_change id revision deleted x).jobs) (sym kept)
          (enqueue_for-All (AtRevision x.registry after) entity id revision operation at_new
            (serving_profile_ids x.registry) x (All-map _ _ x.jobs kept_at a)),
    )
  where
    at_new : (p : ℕ) (j : JobRow) → Queued p entity id revision j → AtRevision x.registry after j
    at_new p j q is_entity served =
        let owner = q.owner in
        let same : j.owner_id ≡ id = ground (arith, owner) in
        subst (λ i. revision_of i after ≡ some j.owner_revision) (sym same)
          (own ∙ ap some (sym q.at))

    kept_at :
        (j : JobRow)
        → AtRevision x.registry before j
        → exists_where (λ p. is_job p entity id j) (serving_profile_ids x.registry) ≡ false
        → AtRevision x.registry after j
    kept_at j at miss is_entity served = elim (ℕ_discrete j.owner_id id) [
      | yes same ↦
          let mine : is_job j.profile_id entity id j ≡ true = ground (arith, is_entity, same) in
          let found =
            served_job j.profile_id entity id (serving_profile_ids x.registry) j served mine in
          let no : ⊥ = ground (arith, found, miss) in absurd no
      | no ne ↦ others j.owner_id ne ∙ at is_entity served
    ]

announce-index :
    (draw : ℕ → ℕ) (event : ChangeEvent) (st st' : Store)
    → announce draw event st ≡ ok st'
    → IsSynced st
    → IsSynced st'
announce-index draw event st st' h synced =
    elim (Result-cases (enqueue_matching draw event st.subscriptions st.outbox).1) [
      | inl (e, bad) ↦ let no : ⊥ = ground (arith, bad) in absurd no
      | inr (n, good) ↦
          let same : (record st {
            outbox = (enqueue_matching draw event st.subscriptions st.outbox).0;
          })
              ≡ st' =
            ground (arith, good) in
          subst IsSynced same synced
    ]

queue-IsSynced :
    (event_id now transaction_id : ℕ) (context : MutationContext) (quiet : Bool)
    (change : EntityChange) (s : EntitySnapshot) (st : Store)
    → IsSynced st
    → let (revisions, revision) = revise quiet change s st.revisions in
      IsSynced (
        queue (is_quiet quiet change) change s revision (
          record_event event_id transaction_id now context change s revision
            (record st { revisions = revisions })))
queue-IsSynced event_id now transaction_id context quiet change s st synced =
    elim (Bool-cases (is_quiet quiet change)) [
      | inl silent ↦
          rw (revise, queue, silent)
            (All-map _ _ st.index.jobs
              (λ j at is_entity served.
                current-kept s.entity_id j.owner_id j.owner_revision st.revisions
                  (at is_entity served))
              synced)
      | inr loud ↦
          rw (revise, queue, loud)
            (enqueue_change-synced s.entity_id
              (bumped s.entity_id (is_deleted change) st.revisions).1 (is_deleted change)
              st.revisions (bumped s.entity_id (is_deleted change) st.revisions).0 st.index
              (bumped-own s.entity_id (is_deleted change) st.revisions)
              (λ other ne. bumped-other s.entity_id other (is_deleted change) st.revisions ne)
              synced).1
    ]

persist_change-IsSynced :
    (event_id : ℕ) (draw : ℕ → ℕ) (now transaction_id : ℕ) (context : MutationContext)
    (quiet : Bool) (change : EntityChange) (st st' : Store)
    → persist_change event_id draw now transaction_id context quiet change st ≡ ok st'
    → IsSynced st
    → IsSynced st'
unfolding persist_change
persist_change-IsSynced event_id draw now transaction_id context quiet change st st' h synced =
    elim (Option-cases (snapshot change)) [
      | inl empty ↦ let no : ⊥ = ground (arith, empty) in absurd no
      | inr (s, is_s) ↦ elim (Bool-cases (exists_where (λ e. e.event_id == event_id) st.log)) [
        | inl taken ↦ let no : ⊥ = ground (arith, is_s, taken) in absurd no
        | inr fresh ↦
            announce-index draw (event_of event_id context change) _ st'
              (rw (persist_change, is_s, fresh) at h)
              (queue-IsSynced event_id now transaction_id context quiet change s st synced)
      ]
    ]

persist_from-IsSynced :
    (draw : ℕ → ℕ) (deliveries : ℕ → ℕ → ℕ) (clock : ℕ → ℕ) (transaction_id : ℕ)
    (context : MutationContext) (quiet : Bool) (changes : List EntityChange) (st st' : Store)
    → persist_from draw deliveries clock transaction_id context quiet changes st ≡ ok st'
    → IsSynced st
    → IsSynced st'
unfolding persist_from
persist_from-IsSynced draw deliveries clock transaction_id context quiet [] st st' h synced =
    let same : st ≡ st' = ground arith in subst IsSynced same synced
persist_from-IsSynced draw deliveries clock transaction_id context quiet (change ∷ changes) st st' h
      synced =
    elim (Result-cases
      (persist_change (draw 0) (deliveries 0) (clock 0) transaction_id context quiet change st)) [
        | inl (e, bad) ↦ let no : ⊥ = ground (arith, bad) in absurd no
        | inr (next_st, good) ↦
            persist_from-IsSynced (λ n. draw (suc n)) (λ n. deliveries (suc n)) (λ n. clock (suc n))
              transaction_id context quiet changes next_st st' (rw (persist_from, good) at h)
              (persist_change-IsSynced (draw 0) (deliveries 0) (clock 0) transaction_id context
                quiet change st next_st good synced)
      ]

-- Recording a change set, quiet or not, keeps every entity's index job, in each profile that the store
-- serves or rebuilds, at the revision of the entity.
pub persist_changes-IsSynced :
    (draw : ℕ → ℕ) (deliveries : ℕ → ℕ → ℕ) (clock : ℕ → ℕ) (set : CommittedChangeSet)
    (context : MutationContext) (quiet : Bool) (st st' : Store)
    → persist_changes draw deliveries clock set context quiet st ≡ ok st'
    → IsSynced st
    → IsSynced st'
unfolding persist_changes
persist_changes-IsSynced draw deliveries clock set context quiet st st' h synced =
    persist_from-IsSynced draw deliveries clock set.transaction_id context quiet set.changes st st'
      h synced
