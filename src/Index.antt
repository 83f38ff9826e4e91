-- ===== src/Index.antt =====
-- crates/mcpmem-core/src/jobs.rs: the queue of owners to embed, one row for each owner and profile.
-- A method is one transaction. The registry has the one row of the store `default`; `Uuid::nil()` is 0.
pub mod Records
pub mod Profiles
pub mod Scan
pub mod Commit
pub mod Trace
pub mod Requeue
pub mod Taxonomy
mod Examples
use mcpmem.Prelude.{
  ℕ, ◌+◌, Bool, true, false, ◌&&◌, ◌||◌, not, String, Option, none, some, List, [], ◌∷◌, ◌++◌, ltb,
  leb, ◌==◌, nat_eq, if◌then◌else◌, Result, ok, err, exists_where, count_where, update_where,
  delete_where, earliest, select,
}
use mcpmem.Events.Records.{CoreError, token_eq, first_chars}
use mcpmem.Events.{lease_until}
use Records.*

abbrev pub nil : ℕ
nil = 0

abbrev pub is_rebuilding : Registry → Bool
is_rebuilding r = r.state == RegistryState.rebuilding

-- SELECT serving UNION SELECT candidate WHERE rebuilding; the nil profile if there is none.
unfoldable pub serving_profile_ids : Registry → List ℕ
serving_profile_ids r = elim r.serving [
  | none ↦ elim r.candidate [
    | none ↦ nil ∷ []
    | some c ↦ if is_rebuilding r then c ∷ [] else nil ∷ []
  ]
  | some p ↦ elim r.candidate [
    | none ↦ p ∷ []
    | some c ↦ if is_rebuilding r && not (c == p) then p ∷ c ∷ [] else p ∷ []
  ]
]

abbrev pub is_job : ℕ → OwnerKind → ℕ → JobRow → Bool
is_job profile kind id j = j.profile_id == profile && j.owner_kind == kind && j.owner_id == id

-- INSERT … ON CONFLICT(profile_id,owner_kind,owner_id) DO UPDATE
abbrev pub requeued : ℕ → IndexOperation → JobState → JobRow → JobRow
requeued revision operation state j = record j {
  owner_revision = revision;
  operation = operation;
  state = state;
  lease_token = none;
  lease_epoch = j.lease_epoch + 1;
  lease_until_us = 0;
  attempts = 0;
  next_attempt_us = 0;
  last_error = none;
}

abbrev pub fresh_job : ℕ → OwnerKind → ℕ → ℕ → IndexOperation → JobState → JobRow
fresh_job profile kind id revision operation state = record {
  profile_id = profile;
  owner_kind = kind;
  owner_id = id;
  owner_revision = revision;
  operation = operation;
  state = state;
  lease_token = none;
  lease_epoch = 0;
  lease_until_us = 0;
  attempts = 0;
  next_attempt_us = 0;
  last_error = none;
}

abbrev pub put_job : ℕ → OwnerKind → ℕ → ℕ → IndexOperation → List JobRow → List JobRow
put_job profile kind id revision operation jobs =
    let state = if profile == nil then held else pending in
    if exists_where (is_job profile kind id) jobs
    then update_where (is_job profile kind id) (requeued revision operation state) jobs
    else fresh_job profile kind id revision operation state ∷ jobs

abbrev pub unscan : ℕ → List AnnGeneration → List AnnGeneration
unscan profile =
    update_where (λ g. g.profile_id == profile) (λ g. record g { full_scan_generation = none })

unfoldable pub enqueue_for : List ℕ → OwnerKind → ℕ → ℕ → IndexOperation → Index → Index
enqueue_for [] kind id revision operation x = x
enqueue_for (p ∷ profiles) kind id revision operation x =
    enqueue_for profiles kind id revision operation (record x {
      jobs = put_job p kind id revision operation x.jobs;
      generations = unscan p x.generations;
    })

unfoldable pub enqueue_chunk_change : OwnerKind → ℕ → ℕ → Bool → Index → Index
unfolding enqueue_for serving_profile_ids
enqueue_chunk_change kind id revision deleted x =
    enqueue_for (serving_profile_ids x.registry) kind id revision
      (if deleted then delete else upsert) x

unfoldable pub enqueue_change : ℕ → ℕ → Bool → Index → Index
unfolding enqueue_chunk_change
enqueue_change entity_id revision deleted x =
    enqueue_chunk_change entity entity_id revision deleted x

-- The profile serves the store, or is being rebuilt.
abbrev pub is_managed : Registry → ℕ → Bool
is_managed r profile =
    elim r.serving [ none ↦ false | some p ↦ p == profile ]
    || (is_rebuilding r && elim r.candidate [ none ↦ false | some c ↦ c == profile ])

abbrev pub is_due : Registry → ℕ → JobRow → Bool
is_due r now j =
    ((j.state == pending && leb j.next_attempt_us now)
      || (j.state == leased && leb j.lease_until_us now))
    && is_managed r j.profile_id

-- The order of the owner kinds' texts.
abbrev pub kind_rank : OwnerKind → ℕ
kind_rank attachment = 0
kind_rank entity = 1
kind_rank relation = 2

-- ORDER BY next_attempt_us, owner_kind, owner_id, profile_id
abbrev pub before : JobRow → JobRow → Bool
before a b =
    ltb a.next_attempt_us b.next_attempt_us
    || (a.next_attempt_us == b.next_attempt_us
        && (ltb (kind_rank a.owner_kind) (kind_rank b.owner_kind)
            || (kind_rank a.owner_kind == kind_rank b.owner_kind
                && (ltb a.owner_id b.owner_id
                    || (a.owner_id == b.owner_id && ltb a.profile_id b.profile_id)))))

abbrev pub lease_row : ℕ → ℕ → JobRow → JobRow
lease_row token until j = record j {
  state = leased;
  lease_token = some token;
  lease_epoch = j.lease_epoch + 1;
  lease_until_us = until;
  attempts = j.attempts + 1;
}

abbrev pub claimed : ℕ → ℕ → JobRow → IndexJob
claimed token until j = record {
  profile_id = j.profile_id;
  operation = j.operation;
  owner_kind = j.owner_kind;
  owner_id = j.owner_id;
  owner_revision = j.owner_revision;
  lease = record { token = token; epoch = j.lease_epoch + 1; until_us = until };
  attempts = j.attempts + 1;
}

unfoldable pub claim_due : ℕ → ℕ → ℕ → Index → Index × Result CoreError (Option IndexJob)
claim_due token now duration_us x = elim (lease_until now duration_us) [
  | err e ↦ (x, err e)
  | ok until ↦ elim (earliest before (is_due x.registry now) x.jobs) [
    | none ↦ (x, ok none)
    | some j ↦ (
      record x {
        jobs =
            update_where (is_job j.profile_id j.owner_kind j.owner_id) (lease_row token until)
              x.jobs;
      },
      ok (some (claimed token until j)),
    )
  ]
]

-- The row is leased to the caller, and the lease runs.
abbrev pub holds : IndexJob → ℕ → JobRow → Bool
holds job now j =
    is_job job.profile_id job.owner_kind job.owner_id j
    && j.lease_token == some job.lease.token
    && j.lease_epoch == job.lease.epoch
    && j.state == leased
    && ltb now j.lease_until_us

unfoldable pub renew : IndexJob → ℕ → ℕ → Index → Index × Result CoreError Bool
renew job now duration_us x = elim (lease_until now duration_us) [
  | err e ↦ (x, err e)
  | ok until ↦ (
    record x {
      jobs = update_where (holds job now) (λ j. record j { lease_until_us = until }) x.jobs;
    },
    ok (count_where (holds job now) x.jobs == 1),
  )
]

abbrev pub is_vector_of : ℕ → OwnerKind → ℕ → VectorRow → Bool
is_vector_of profile kind id v = v.profile_id == profile && v.owner_kind == kind && v.owner_id == id

-- durable_generation + 1, full_scan_generation NULL
abbrev pub advance : ℕ → List AnnGeneration → List AnnGeneration
advance profile =
    update_where (λ g. g.profile_id == profile)
      (λ g. record g { durable_generation = g.durable_generation + 1; full_scan_generation = none })

-- A dead-lettered owner keeps no vectors.
abbrev pub purge : IndexJob → Index → Index
purge job x =
    let removed = count_where (is_vector_of job.profile_id job.owner_kind job.owner_id) x.vectors in
    record x {
      vectors = delete_where (is_vector_of job.profile_id job.owner_kind job.owner_id) x.vectors;
      generations =
          if ltb 0 removed && job.owner_kind == attachment
          then advance job.profile_id x.generations
          else x.generations;
    }

abbrev pub retry_row : ℕ → String → Bool → JobRow → JobRow
retry_row next_attempt_us error is_dead j = record j {
  state = if is_dead then dead else pending;
  next_attempt_us = next_attempt_us;
  last_error = some (first_chars 2048 error);
}

unfoldable pub retry : IndexJob → ℕ → ℕ → String → Bool → Index → Index × Bool
retry job now next_attempt_us error is_dead x =
    let changed = count_where (holds job now) x.jobs == 1 in
    let x' = record x {
      jobs = update_where (holds job now) (retry_row next_attempt_us error is_dead) x.jobs;
    } in
    (if changed && is_dead then purge job x' else x', changed)
