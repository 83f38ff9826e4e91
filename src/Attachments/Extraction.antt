-- ===== src/Attachments/Extraction.antt =====
-- crates/mcpmem-core/src/attachments.rs: AttachmentJobRepository, the queue of the text extractors.
-- Every method but next_due_us and renew also writes the tables of the index or of the attachments.
pub mod Pages
pub mod Attempts
use Prim.Native.String.{count}
use mcpmem.Prelude.{
  ℕ, ◌+◌, Bool, true, false, ◌&&◌, ◌||◌, not, String, Option, none, some, List, [], ◌∷◌, ◌++◌, map,
  ltb, leb, ◌==◌, nat_eq, text_eq, if◌then◌else◌, Result, ok, err, first_where, exists_where,
  update_where, delete_where, select, earliest, length,
}
use mcpmem.Events.Records.{Lease, token_eq, pending, leased, done, dead, state_eq}
use mcpmem.Events.{lease_until}
use mcpmem.Attachments.Records.{
  AttachmentError, storage, AttachmentStatus, uploaded, extracting, ready, status_eq, Attachment,
  ExtractionJob, PageText, Segment, Files, Outside, UploadSession,
}
use mcpmem.Attachments.{is_none}
use mcpmem.Attachments.Segments.{cut}
use mcpmem.Index.Records.{Index, OwnerKind}
use mcpmem.Index.{enqueue_chunk_change}

pub record AttachmentJob : Type 0 where
  pub attachment_id : ℕ
  pub revision : ℕ
  pub lease : Lease
  pub attempts : ℕ

abbrev pub max_attempts : ℕ
max_attempts = 8

-- COALESCE(column, otherwise)
abbrev pub or_else : Option String → String → Option String
or_else none otherwise = some otherwise
or_else (some text) otherwise = some text

abbrev pub is_spent : ℕ → ExtractionJob → Bool
is_spent now j = j.state == leased && leb j.lease_until_us now && leb max_attempts j.attempts

abbrev pub limit_exceeded : String
limit_exceeded = "extraction attempt limit exceeded"

-- The two UPDATEs that end the jobs whose last lease has expired.
abbrev pub end_spent : ℕ → Files → Files
end_spent now s = record s {
  attachments =
      update_where (λ a. exists_where (λ j. j.attachment_id == a.id && is_spent now j) s.jobs)
        (λ a. record a {
          status = AttachmentStatus.error;
          error_stage = or_else a.error_stage "storage";
          last_error = or_else a.last_error limit_exceeded;
        })
        s.attachments;
  jobs =
      update_where (is_spent now)
        (λ j. record j {
          state = dead;
          lease_token = none;
          last_error = or_else j.last_error limit_exceeded;
        })
        s.jobs;
}

-- JOIN attachment, entity, entity_revision: the job's attachment still awaits its text.
abbrev pub awaits_text : Outside → List Attachment → ExtractionJob → Bool
awaits_text o attachments j = elim (first_where (λ a. a.id == j.attachment_id) attachments) [
  | none ↦ false
  | some a ↦ o.is_live a.entity_id && (a.status == uploaded || a.status == extracting)
]

abbrev pub is_due : Outside → ℕ → List Attachment → ExtractionJob → Bool
is_due o now attachments j =
    awaits_text o attachments j
    && ltb j.attempts max_attempts
    && ((j.state == pending && leb j.next_attempt_us now)
        || (j.state == leased && leb j.lease_until_us now))

-- ORDER BY j.next_attempt_us, j.attachment_id
abbrev pub before : ExtractionJob → ExtractionJob → Bool
before a b =
    ltb a.next_attempt_us b.next_attempt_us
    || (a.next_attempt_us == b.next_attempt_us && ltb a.attachment_id b.attachment_id)

abbrev pub lease_row : ℕ → ℕ → ExtractionJob → ExtractionJob
lease_row token until j = record j {
  state = leased;
  lease_token = some token;
  lease_epoch = j.lease_epoch + 1;
  lease_until_us = until;
  attempts = j.attempts + 1;
}

abbrev pub lease_due : Outside → ℕ → ℕ → ℕ → Files → Files × Option AttachmentJob
lease_due o token now until s = elim (earliest before (is_due o now s.attachments) s.jobs) [
  | none ↦ (s, none)
  | some j ↦ elim (first_where (λ a. a.id == j.attachment_id) s.attachments) [
    | none ↦ (s, none)
    | some a ↦ (
      record s {
        jobs =
            update_where (λ r. r.attachment_id == j.attachment_id) (lease_row token until) s.jobs;
        attachments =
            update_where (λ r. r.id == j.attachment_id) (λ r. record r { status = extracting })
              s.attachments;
      },
      some (record {
        attachment_id = j.attachment_id;
        revision = a.revision;
        lease = record { token = token; epoch = j.lease_epoch + 1; until_us = until };
        attempts = j.attempts + 1;
      }),
    )
  ]
]

unfoldable pub claim_due :
    Outside → ℕ → ℕ → ℕ → Files → Files × Result AttachmentError (Option AttachmentJob)
claim_due o token now duration_us s = elim (lease_until now duration_us) [
  | err e ↦ (s, err storage)
  | ok until ↦ let (s', job) = lease_due o token now until (end_spent now s) in (s', ok job)
]

-- SELECT MIN(…)
unfoldable pub least : List ℕ → Option ℕ
least [] = none
least (t ∷ ts) =
    let rest = least ts in elim rest [ none ↦ some t | some u ↦ some (if ltb u t then u else t) ]

abbrev pub is_live_upload : Outside → UploadSession → Bool
is_live_upload o u = is_none u.attachment_id && o.is_live u.entity_id

abbrev pub due_times : Outside → Files → List ℕ
due_times o s =
    map (λ j. j.next_attempt_us)
      (select
        (λ j. awaits_text o s.attachments j && ltb j.attempts max_attempts && j.state == pending)
        s.jobs)
    ++ map (λ j. j.lease_until_us)
        (select (λ j. awaits_text o s.attachments j && j.state == leased) s.jobs)
    ++ map (λ u. u.expires_us) (select (is_live_upload o) s.uploads)

unfoldable pub next_due_us : Outside → Files → Option ℕ
unfolding least
next_due_us o s = least (due_times o s)

abbrev pub holds : AttachmentJob → ℕ → ExtractionJob → Bool
holds job now j =
    j.attachment_id == job.attachment_id
    && j.state == leased
    && j.lease_token == some job.lease.token
    && j.lease_epoch == job.lease.epoch
    && ltb now j.lease_until_us

abbrev pub is_extracted : Outside → AttachmentJob → Attachment → Bool
is_extracted o job a =
    a.id == job.attachment_id
    && a.revision == job.revision
    && a.status == extracting
    && o.is_live a.entity_id

abbrev pub fenced : Outside → AttachmentJob → ℕ → Files → Bool
fenced o job now s =
    exists_where (holds job now) s.jobs && exists_where (is_extracted o job) s.attachments

unfoldable pub renew : Outside → AttachmentJob → ℕ → ℕ → Files → Files × Result AttachmentError Bool
renew o job now duration_us s = elim (lease_until now duration_us) [
  | err e ↦ (s, err storage)
  | ok until ↦
      if fenced o job now s
      then (
        record s {
          jobs =
              update_where (λ j. j.attachment_id == job.attachment_id)
                (λ j. record j { lease_until_us = until }) s.jobs;
        },
        ok true,
      )
      else (s, ok false)
]

unfoldable pub numbered : ℕ → ℕ → ℕ → ℕ → List String → List Segment
numbered id page chunk_index segment_index [] = []
numbered id page chunk_index segment_index (text ∷ texts) =
    record {
      attachment_id = id;
      chunk_index = chunk_index;
      page = page;
      segment_index = segment_index;
      text = text;
    }
    ∷ numbered id page (chunk_index + 1) (segment_index + 1) texts

unfoldable pub page_segments : ℕ → ℕ → List (ℕ × String) → List Segment
unfolding cut numbered
page_segments id chunk_index [] = []
page_segments id chunk_index ((page, text) ∷ pages) =
    let pieces = cut 0 "" text in
    numbered id page chunk_index 0 pieces ++ page_segments id (chunk_index + length pieces) pages

abbrev pub page_text : ℕ → ℕ × String → PageText
page_text id (page, text) = record {
  attachment_id = id;
  page = page;
  text = text;
  chars = count text;
}

abbrev pub with_pages : AttachmentJob → List (ℕ × String) → Files → Files
with_pages job pages s = record s {
  segments =
      page_segments job.attachment_id 0 pages
      ++ delete_where (λ c. c.attachment_id == job.attachment_id) s.segments;
  texts =
      map (page_text job.attachment_id) pages
      ++ delete_where (λ t. t.attachment_id == job.attachment_id) s.texts;
  attachments =
      update_where (λ a. a.id == job.attachment_id)
        (λ a. record a {
          status = ready;
          revision = a.revision + 1;
          last_error = none;
          error_stage = none;
        })
        s.attachments;
  jobs =
      update_where (λ j. j.attachment_id == job.attachment_id)
        (λ j. record j { state = done; lease_token = none }) s.jobs;
}

abbrev pub number_of : ℕ × String → ℕ
number_of (page, text) = page

-- CHECK (page >= 1), PRIMARY KEY (attachment_id, page)
unfoldable pub is_refused : List (ℕ × String) → Bool
is_refused [] = false
is_refused (page ∷ pages) =
    number_of page == 0
    || exists_where (λ other. number_of other == number_of page) pages
    || is_refused pages

unfoldable pub complete :
    Outside
    → AttachmentJob
    → ℕ
    → List (ℕ × String)
    → Files
    → Index
    → (Files × Index) × Result AttachmentError Bool
unfolding page_segments enqueue_chunk_change is_refused
complete o job now pages s x =
    if not (fenced o job now s)
    then ((s, x), ok false)
    else if is_refused pages
    then ((s, x), err storage)
    else (
      (
        with_pages job pages s,
        enqueue_chunk_change OwnerKind.attachment job.attachment_id (job.revision + 1) false x,
      ),
      ok true,
    )

abbrev pub is_stage : String → Bool
is_stage stage =
    stage == "config"
    || stage == "render"
    || stage == "provider"
    || stage == "decode"
    || stage == "storage"

abbrev pub given_up : AttachmentJob → Bool → Bool
given_up job is_dead = is_dead || leb max_attempts job.attempts

unfoldable pub retry :
    Outside
    → AttachmentJob
    → ℕ
    → ℕ
    → String
    → String
    → Bool
    → Files
    → Files × Result AttachmentError Bool
retry o job now next_attempt_us stage reason is_dead s =
    if not (is_stage stage)
    then (s, err storage)
    else if fenced o job now s
    then (
      record s {
        jobs =
            update_where (λ j. j.attachment_id == job.attachment_id)
              (λ j. record j {
                state = if given_up job is_dead then dead else pending;
                next_attempt_us = next_attempt_us;
                last_error = some reason;
                lease_token = none;
              })
              s.jobs;
        attachments =
            update_where (λ a. a.id == job.attachment_id)
              (λ a. record a {
                status = if given_up job is_dead then AttachmentStatus.error else extracting;
                error_stage = some stage;
                last_error = some reason;
              })
              s.attachments;
      },
      ok true,
    )
    else (s, ok false)
