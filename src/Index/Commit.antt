-- ===== src/Index/Commit.antt =====
-- crates/mcpmem-core/src/jobs.rs: commit_chunks, which writes an owner's vectors under its lease.
pub mod Fence
pub mod Unscanned
pub mod Barrier
use mcpmem.Prelude.{
  ℕ, ◌+◌, Bool, true, false, ◌&&◌, ◌||◌, not, String, Option, none, some, List, [], ◌∷◌, ◌++◌, ltb,
  ◌==◌, nat_eq, if◌then◌else◌, Result, ok, err, ◌>>=◌, ◌>>◌, refuse_if, first_where, exists_where,
  count_where, update_where, delete_where, length,
}
use mcpmem.Events.Records.{CoreError, invalid_params, memory_error, io_error, token_eq}
use mcpmem.Attachments.Records.{Attachment, ready, status_eq}
use mcpmem.Index.Records.{
  IndexJob, IndexOperation, upsert, delete, JobRow, JobState, leased, done, job_state_eq, OwnerKind,
  entity, relation, attachment, owner_kind_eq, ChunkKind, chunk_kind_eq, VectorRow, KindGeneration,
  Index, Sources,
}
use mcpmem.Index.{is_job, is_vector_of, advance}
use mcpmem.Index.Scan.{is_text_of}
use mcpmem.Index.Profiles.{Arithmetic, get, validate_vector}

-- The live revision of an owner, and whether it is deleted.
unfoldable pub owner_revision : OwnerKind → ℕ → Sources → Option (ℕ × Bool)
owner_revision entity id src = elim (first_where (λ r. r.entity_id == id) src.revisions) [
  | none ↦ none
  | some r ↦ some (r.revision, r.deleted)
]
owner_revision relation id src = elim (first_where (λ m. m.id == id) src.relations) [
  | none ↦ none
  | some m ↦ some (m.revision, m.deleted)
]
owner_revision attachment id src = elim (first_where (λ a. a.id == id) src.attachments) [
  | none ↦ none
  | some a ↦ elim (first_where (λ e. e.id == a.entity_id) src.entities) [
    | none ↦ none
    | some e ↦ elim (first_where (λ r. r.entity_id == e.id) src.revisions) [
      | none ↦ none
      | some r ↦ some (a.revision, not (a.status == ready) || not (e.flags == 0) || r.deleted)
    ]
  ]
]

unfoldable pub owner_type_id : OwnerKind → ℕ → Sources → Result CoreError ℕ
owner_type_id entity id src = elim (first_where (λ e. e.id == id) src.entities) [
  | none ↦ err io_error
  | some e ↦ ok e.type_id
]
owner_type_id relation id src = elim (first_where (λ m. m.id == id) src.relations) [
  | none ↦ err io_error
  | some m ↦ ok m.type_id
]
owner_type_id attachment id src =
    elim (first_where (λ a. a.id == id && a.status == ready) src.attachments) [
      | none ↦ err io_error
      | some a ↦
          elim (first_where
            (λ e.
              e.id == a.entity_id
              && e.flags == 0
              && exists_where (λ r. r.entity_id == e.id && not r.deleted) src.revisions)
            src.entities) [ none ↦ err io_error | some e ↦ ok e.type_id ]
    ]

-- The row of the job is at the job's revision and under its lease.
abbrev pub is_current : IndexJob → ℕ → JobRow → Bool
is_current job now j =
    j.owner_revision == job.owner_revision
    && j.state == leased
    && j.lease_token == some job.lease.token
    && j.lease_epoch == job.lease.epoch
    && ltb now j.lease_until_us

abbrev pub under_lease : IndexJob → ℕ → Index → Bool
under_lease job now x =
    elim (first_where (is_job job.profile_id job.owner_kind job.owner_id) x.jobs) [
      | none ↦ false
      | some j ↦ is_current job now j
    ]

-- The live owner is at the job's revision, and deleted exactly if the job deletes.
abbrev pub fits_operation : IndexOperation → Bool → Bool
fits_operation upsert deleted = not deleted
fits_operation delete deleted = deleted

abbrev pub is_live_revision : IndexJob → Sources → Bool
is_live_revision job src = elim (owner_revision job.owner_kind job.owner_id src) [
  | none ↦ false
  | some (revision, deleted) ↦
      revision == job.owner_revision && fits_operation job.operation deleted
]

-- An upsert carries chunks and a delete none; for attachments the absence of chunks ends the call.
abbrev pub payload_fits : IndexOperation → Option (List (ChunkKind × List ℕ)) → Bool
payload_fits upsert none = false
payload_fits upsert (some chunks) = true
payload_fits delete none = true
payload_fits delete (some chunks) = false

unfoldable pub all_attachment : List (ChunkKind × List ℕ) → Bool
all_attachment [] = true
all_attachment ((kind, vector) ∷ chunks) = kind == ChunkKind.attachment && all_attachment chunks

abbrev pub segments_fit : IndexJob → List (ChunkKind × List ℕ) → Sources → Bool
segments_fit job chunks src =
    length chunks == count_where (is_text_of job.owner_id) src.segments && all_attachment chunks

-- The rows of the chunks, numbered from `index`; the first vector that is refused ends the call.
unfoldable pub chunk_rows :
    (List ℕ → Result CoreError (Unit {0}))
    → (ChunkKind → ℕ → List ℕ → VectorRow)
    → ℕ
    → List (ChunkKind × List ℕ)
    → Result CoreError (List VectorRow)
chunk_rows check row index [] = ok []
chunk_rows check row index ((kind, vector) ∷ chunks) =
    check vector >> chunk_rows check row (index + 1) chunks >>= λ rows.
    ok (row kind index vector ∷ rows)

abbrev pub vector_row : IndexJob → ℕ → ℕ → String → ChunkKind → ℕ → List ℕ → VectorRow
vector_row job type_id now source kind index vector = record {
  profile_id = job.profile_id;
  kind = kind;
  owner_kind = job.owner_kind;
  owner_id = job.owner_id;
  chunk_index = index;
  type_id = type_id;
  owner_revision = job.owner_revision;
  vector = vector;
  created_at_us = now;
  source = source;
}

abbrev pub new_vectors :
    Arithmetic
    → IndexJob
    → ℕ
    → Option (List (ChunkKind × List ℕ))
    → String
    → Sources
    → Index
    → Result CoreError (List VectorRow)
new_vectors a job now none source src x = ok []
new_vectors a job now (some chunks) source src x = get job.profile_id x >>= λ profile.
    owner_type_id job.owner_kind job.owner_id src >>= λ type_id.
    chunk_rows (validate_vector a profile) (vector_row job type_id now source) 0 chunks

-- INSERT … ON CONFLICT DO NOTHING, then durable_generation + 1, for the relations' kind 2.
abbrev pub is_kind : ℕ → ℕ → KindGeneration → Bool
is_kind profile kind g = g.profile_id == profile && g.subject_kind == kind

abbrev pub with_kind : ℕ → ℕ → List KindGeneration → List KindGeneration
with_kind profile kind gs =
    if exists_where (is_kind profile kind) gs
    then gs
    else (record {
      profile_id = profile;
      subject_kind = kind;
      durable_generation = 0;
      published_generation = none;
      full_scan_generation = none;
    }
        ∷ gs)

abbrev pub advance_kind : ℕ → ℕ → List KindGeneration → List KindGeneration
advance_kind profile kind =
    update_where (is_kind profile kind)
      (λ g. record g { durable_generation = g.durable_generation + 1; full_scan_generation = none })

abbrev pub replace : IndexJob → List VectorRow → Index → Index
replace job rows x = record x {
  vectors =
      rows ++ delete_where (is_vector_of job.profile_id job.owner_kind job.owner_id) x.vectors;
  jobs =
      update_where (is_job job.profile_id job.owner_kind job.owner_id)
        (λ j. record j { state = done }) x.jobs;
  generations = advance job.profile_id x.generations;
  kind_generations =
      if job.owner_kind == relation
      then advance_kind job.profile_id 2 (with_kind job.profile_id 2 x.kind_generations)
      else x.kind_generations;
}

abbrev pub bad_attachment : IndexJob → Option (List (ChunkKind × List ℕ)) → Sources → Bool
bad_attachment job none src = false
bad_attachment job (some chunks) src =
    job.owner_kind == attachment && not (segments_fit job chunks src)

-- `let Some(chunk_list) = chunks else { return Ok(false) }`
abbrev pub lacks_chunks : IndexJob → Option (List (ChunkKind × List ℕ)) → Bool
lacks_chunks job none = job.owner_kind == attachment
lacks_chunks job (some chunks) = false

unfoldable pub commit_chunks :
    Arithmetic
    → IndexJob
    → ℕ
    → Option (List (ChunkKind × List ℕ))
    → String
    → Sources
    → Index
    → Index × Result CoreError Bool
unfolding owner_revision owner_type_id all_attachment chunk_rows
commit_chunks a job now chunks source src x =
    if not (under_lease job now x) || not (is_live_revision job src)
    then (x, ok false)
    else if not (payload_fits job.operation chunks)
    then (x, err invalid_params)
    else if lacks_chunks job chunks
    then (x, ok false)
    else elim (refuse_if (bad_attachment job chunks src) invalid_params
        >> new_vectors a job now chunks source src x) [
          | err e ↦ (x, err e)
          | ok rows ↦ (replace job rows x, ok true)
        ]
