-- ===== src/Index/Taxonomy.antt =====
-- crates/mcpmem-core/src/jobs.rs: the queue of the types to embed, for entities (kind 0) and relations
-- (kind 1). Kind 2 is derived from the relations' vectors and is never claimed.
pub mod Records
pub mod Repeat
mod Examples
use mcpmem.Prelude.{
  ℕ, ◌+◌, Bool, true, false, ◌&&◌, ◌||◌, not, String, Option, none, some, List, [], ◌∷◌, ltb, leb,
  ◌==◌, nat_eq, if◌then◌else◌, Result, ok, err, first_where, exists_where, count_where,
  update_where, delete_where, earliest,
}
use mcpmem.Events.Records.{CoreError, invalid_params, memory_error, i64_max, token_eq, first_chars}
use mcpmem.Events.{lease_until}
use mcpmem.Index.Records.{
  Index, IndexOperation, upsert, delete, JobState, pending, leased, held, done, dead, job_state_eq,
  OwnerKind, relation, owner_kind_eq, ChunkKind, chunk_kind_eq, Registry, RelationRow, VectorRow,
  JobRow, KindGeneration,
}
use mcpmem.Index.{is_managed, nil}
use mcpmem.Index.Commit.{is_kind, with_kind, advance_kind}
use Records.*

abbrev pub is_job : ℕ → ℕ → ℕ → TaxonomyRow → Bool
is_job kind id profile j = j.subject_kind == kind && j.subject_id == id && j.profile_id == profile

-- INSERT … ON CONFLICT(subject_kind,subject_id,profile_id) DO UPDATE
abbrev pub requeued : ℕ → IndexOperation → JobState → TaxonomyRow → TaxonomyRow
requeued revision operation state j = record j {
  subject_revision = revision;
  operation = operation;
  state = state;
  lease_token = none;
  lease_epoch = j.lease_epoch + 1;
  lease_until_us = 0;
  attempts = 0;
  next_attempt_us = 0;
  last_error = none;
}

abbrev pub put_job : ℕ → ℕ → ℕ → IndexOperation → ℕ → List TaxonomyRow → List TaxonomyRow
put_job kind id revision operation profile jobs =
    let state = if profile == nil then held else pending in
    if exists_where (is_job kind id profile) jobs
    then update_where (is_job kind id profile) (requeued revision operation state) jobs
    else (record {
      subject_kind = kind;
      subject_id = id;
      profile_id = profile;
      subject_revision = revision;
      operation = operation;
      state = state;
      lease_token = none;
      lease_epoch = 0;
      lease_until_us = 0;
      attempts = 0;
      next_attempt_us = 0;
      last_error = none;
    }
        ∷ jobs)

abbrev pub unscan_kind : ℕ → ℕ → List KindGeneration → List KindGeneration
unscan_kind profile kind =
    update_where (is_kind profile kind) (λ g. record g { full_scan_generation = none })

unfoldable pub enqueue_taxonomy :
    ℕ → ℕ → ℕ → IndexOperation → ℕ → Taxonomy → Index → Taxonomy × Index
enqueue_taxonomy kind id revision operation profile t x =
    let marked =
      if profile == nil then x.kind_generations else with_kind profile kind x.kind_generations in
    (
      record t { jobs = put_job kind id revision operation profile t.jobs },
      record x { kind_generations = unscan_kind profile kind marked },
    )

abbrev pub is_due : Registry → ℕ → TaxonomyRow → Bool
is_due r now j =
    ((j.state == pending && leb j.next_attempt_us now)
      || (j.state == leased && leb j.lease_until_us now))
    && not (j.subject_kind == 2)
    && is_managed r j.profile_id

-- ORDER BY next_attempt_us, subject_kind, subject_id, profile_id
abbrev pub before : TaxonomyRow → TaxonomyRow → Bool
before a b =
    ltb a.next_attempt_us b.next_attempt_us
    || (a.next_attempt_us == b.next_attempt_us
        && (ltb a.subject_kind b.subject_kind
            || (a.subject_kind == b.subject_kind
                && (ltb a.subject_id b.subject_id
                    || (a.subject_id == b.subject_id && ltb a.profile_id b.profile_id)))))

abbrev pub lease_row : ℕ → ℕ → TaxonomyRow → TaxonomyRow
lease_row token until j = record j {
  state = leased;
  lease_token = some token;
  lease_epoch = j.lease_epoch + 1;
  lease_until_us = until;
  attempts = j.attempts + 1;
}

abbrev pub claimed : ℕ → ℕ → TaxonomyRow → TaxonomyJob
claimed token until j = record {
  subject_kind = j.subject_kind;
  subject_id = j.subject_id;
  subject_revision = j.subject_revision;
  profile_id = j.profile_id;
  operation = j.operation;
  lease = record { token = token; epoch = j.lease_epoch + 1; until_us = until };
  attempts = j.attempts + 1;
}

unfoldable pub claim_due :
    ℕ → ℕ → ℕ → Registry → Taxonomy → Taxonomy × Result CoreError (Option TaxonomyJob)
claim_due token now duration_us r t = elim (lease_until now duration_us) [
  | err e ↦ (t, err e)
  | ok until ↦ elim (earliest before (is_due r now) t.jobs) [
    | none ↦ (t, ok none)
    | some j ↦ (
      record t {
        jobs =
            update_where (is_job j.subject_kind j.subject_id j.profile_id) (lease_row token until)
              t.jobs;
      },
      ok (some (claimed token until j)),
    )
  ]
]

-- The row is under the lease that the job holds, running or not.
abbrev pub is_leased_to : TaxonomyJob → TaxonomyRow → Bool
is_leased_to job j =
    is_job job.subject_kind job.subject_id job.profile_id j
    && j.lease_token == some job.lease.token
    && j.lease_epoch == job.lease.epoch

abbrev pub holds : TaxonomyJob → ℕ → TaxonomyRow → Bool
holds job now j = is_leased_to job j && j.state == leased && ltb now j.lease_until_us

unfoldable pub renew : TaxonomyJob → ℕ → ℕ → Taxonomy → Taxonomy × Result CoreError Bool
renew job now duration_us t = elim (lease_until now duration_us) [
  | err e ↦ (t, err e)
  | ok until ↦ (
    record t {
      jobs = update_where (holds job now) (λ j. record j { lease_until_us = until }) t.jobs;
    },
    ok (count_where (holds job now) t.jobs == 1),
  )
]

abbrev pub is_vector_of : TaxonomyJob → TaxonomyVector → Bool
is_vector_of job v =
    v.profile_id == job.profile_id
    && v.subject_kind == job.subject_kind
    && v.subject_id == job.subject_id

abbrev pub retry_row : ℕ → String → Bool → TaxonomyRow → TaxonomyRow
retry_row next_attempt_us error is_dead j = record j {
  state = if is_dead then dead else pending;
  next_attempt_us = next_attempt_us;
  last_error = some (first_chars 2048 error);
}

unfoldable pub retry : TaxonomyJob → ℕ → ℕ → String → Bool → Taxonomy → Taxonomy × Bool
retry job now next_attempt_us error is_dead t =
    let changed = count_where (holds job now) t.jobs == 1 in
    (
      record t {
        jobs = update_where (holds job now) (retry_row next_attempt_us error is_dead) t.jobs;
        vectors =
            if changed && is_dead then delete_where (is_vector_of job) t.vectors else t.vectors;
      },
      changed,
    )

-- `unwrap_or(i64::MAX)`
abbrev pub source_revision : TaxonomyJob → List TypeRow → ℕ
source_revision job types =
    elim (first_where (λ s. s.id == job.subject_id && s.kind == job.subject_kind) types) [
      | none ↦ i64_max
      | some s ↦ s.revision
    ]

abbrev pub vector_row : TaxonomyJob → ℕ → List ℕ → String → TaxonomyVector
vector_row job now vector source = record {
  profile_id = job.profile_id;
  subject_kind = job.subject_kind;
  subject_id = job.subject_id;
  subject_revision = job.subject_revision;
  vector = vector;
  created_at_us = now;
  source = source;
}

-- INSERT … ON CONFLICT(profile_id,subject_kind,subject_id) DO UPDATE
abbrev pub put_vector : TaxonomyJob → TaxonomyVector → List TaxonomyVector → List TaxonomyVector
put_vector job v vectors =
    if exists_where (is_vector_of job) vectors
    then update_where (is_vector_of job) (λ _. v) vectors
    else v ∷ vectors

abbrev pub new_vectors :
    TaxonomyJob
    → ℕ
    → Option (List ℕ)
    → String
    → List TaxonomyVector
    → Result CoreError (List TaxonomyVector)
new_vectors job now vector source vectors = elim job.operation [
  | upsert ↦ elim vector [
    | none ↦ err invalid_params
    | some bits ↦ ok (put_vector job (vector_row job now bits source) vectors)
  ]
  | delete ↦ elim vector [ none ↦ ok vectors | some bits ↦ err invalid_params ]
]

-- SELECT … WHERE the job's key, revision and lease.
abbrev pub is_current : TaxonomyJob → TaxonomyRow → Bool
is_current job j = is_leased_to job j && j.subject_revision == job.subject_revision

abbrev pub write :
    TaxonomyJob
    → ℕ
    → Option (List ℕ)
    → String
    → Taxonomy
    → Index
    → (Taxonomy × Index) × Result CoreError Bool
write job now vector source t x = elim (new_vectors job now vector source t.vectors) [
  | err e ↦ ((t, x), err e)
  | ok vectors ↦ (
    (
      record t {
        vectors = vectors;
        jobs = update_where (is_leased_to job) (λ j. record j { state = done }) t.jobs;
      },
      record x {
        kind_generations = advance_kind job.profile_id job.subject_kind x.kind_generations;
      },
    ),
    ok true,
  )
]

unfoldable pub commit_vector :
    TaxonomyJob
    → ℕ
    → Option (List ℕ)
    → String
    → Taxonomy
    → Index
    → (Taxonomy × Index) × Result CoreError Bool
commit_vector job now vector source t x = elim (first_where (is_current job) t.jobs) [
  | none ↦ ((t, x), ok false)
  | some j ↦
      if j.state == done
      then ((t, x), ok true)
      else if not (j.state == leased && ltb now j.lease_until_us)
      then ((t, x), ok false)
      else if not (source_revision job t.types == job.subject_revision)
      then ((t, x), ok false)
      else write job now vector source t x
]

-- A type in use has no job that may still succeed, or a vector of another revision.
abbrev pub type_invalid : ℕ → ℕ → Taxonomy → TypeRow → Bool
type_invalid profile kind t s =
    s.kind == kind
    && ltb 0 s.count
    && (not (exists_where (λ j. is_job kind s.id profile j && not (j.state == dead)) t.jobs)
        || exists_where
            (λ v.
              v.profile_id == profile
              && v.subject_kind == kind
              && v.subject_id == s.id
              && not (v.subject_revision == s.revision))
            t.vectors)

abbrev pub relation_invalid : ℕ → Index → RelationRow → Bool
relation_invalid profile x m =
    not m.deleted
    && (not (
          exists_where
            (λ j.
              j.owner_kind == relation
              && j.owner_id == m.id
              && j.profile_id == profile
              && not (j.state == dead))
            x.jobs)
        || exists_where
            (λ v.
              v.profile_id == profile
              && v.kind == ChunkKind.relation
              && v.owner_id == m.id
              && not (v.owner_revision == m.revision))
            x.vectors)

unfoldable pub taxonomy_scan_invalid :
    ℕ → ℕ → List RelationRow → Taxonomy → Index → Result CoreError Bool
taxonomy_scan_invalid profile kind relations t x =
    if kind == 0 || kind == 1
    then ok (exists_where (type_invalid profile kind t) t.types)
    else if kind == 2
    then ok (exists_where (relation_invalid profile x) relations)
    else err memory_error
