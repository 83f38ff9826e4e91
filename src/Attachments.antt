-- ===== src/Attachments.antt =====
-- crates/mcpmem-core/src/attachments.rs: uploads and the byte budget of the workspace.
-- A method is one transaction: with `err` it leaves the tables as they were. Sizes, indices and
-- clocks are never negative here; the source refuses the negative ones first. An upload's identifier,
-- a Uuid, is a number, the nil one 0. Failures of SQLite are not modelled.
pub mod Records
pub mod Mime
mod Admission
mod Append
pub mod Budget
pub mod Replay
pub mod Finish
pub mod Quota
pub mod Segments
pub mod Removal
pub mod Extraction
mod Examples
use Prim.Native.Nat.{zero}
use mcpmem.Prelude.{
  ℕ, suc, ◌-◌, ◌+◌, ◌*◌, max, Bool, true, false, ◌&&◌, ◌||◌, not, String, Option, none, some, List,
  [], ◌∷◌, ◌++◌, ltb, leb, ◌==◌, nat_eq, text_eq, ℕ_discrete, if◌then◌else◌, Result, ok, err, ◌>>=◌,
  ◌>>◌, refuse_if, first_where, exists_where, count_where, update_where, delete_where, length,
  is_blank, Eq,
}
use mcpmem.Events.Records.{i64_max}
use Records.*
unfoldable pub use Admission.*
unfoldable pub use Append.*

abbrev pub new_upload : ℕ → String → ℕ → String → String → ℕ → String → ℕ → UploadSession
new_upload upload_id principal entity_id filename mime expected_bytes sha256 expires_us = record {
  upload_id = upload_id;
  principal = principal;
  entity_id = entity_id;
  filename = filename;
  mime = mime;
  expected_bytes = expected_bytes;
  sha256 = sha256;
  received_bytes = 0;
  next_index = 0;
  expires_us = expires_us;
  attachment_id = none;
}

pub begin_upload_at :
    Outside
    → ℕ
    → String
    → ℕ
    → String
    → String
    → ℕ
    → String
    → ℕ
    → ℕ
    → AttachmentLimits
    → Files
    → Files × Result AttachmentError ℕ
unfolding validate_file
begin_upload_at o upload_id principal entity_id filename mime expected_bytes sha256 now expires_us
      limits s =
    elim (validate_file o entity_id filename mime expected_bytes limits s
      >> check_budget expected_bytes 0 now limits s) [
        | err e ↦ (s, err e)
        | ok _ ↦ (
          record s {
            uploads =
                new_upload upload_id principal entity_id filename mime expected_bytes sha256
                  expires_us
                ∷ s.uploads;
          },
          ok upload_id,
        )
      ]

-- The admission time is an hour before the expiry; one before 1970 is taken for 0.
pub begin_upload :
    Outside
    → ℕ
    → String
    → ℕ
    → String
    → String
    → ℕ
    → String
    → ℕ
    → AttachmentLimits
    → Files
    → Files × Result AttachmentError ℕ
unfolding begin_upload_at
begin_upload o upload_id principal entity_id filename mime expected_bytes sha256 expires_us limits
      s =
    begin_upload_at o upload_id principal entity_id filename mime expected_bytes sha256
      (expires_us - upload_ttl_us) expires_us limits s

-- What `ChunkReader` yields: the chunks in the order of their indices; a missing row is an error.
unfoldable pub read_chunks : ℕ → ℕ → ℕ → List UploadChunk → Option (List ℕ)
read_chunks id next zero chunks = some []
read_chunks id next (suc remaining) chunks =
    let rest = read_chunks id (next + 1) remaining chunks in
    elim (first_where (λ c. c.upload_id == id && c.chunk_index == next) chunks) [
      | none ↦ none
      | some c ↦ elim rest [ none ↦ none | some bytes ↦ some (c.content ++ bytes) ]
    ]

unfoldable pub last_id : List Attachment → ℕ
last_id [] = 0
last_id (a ∷ rest) = max a.id (last_id rest)

-- The reader's bytes fill the declared size exactly and have the declared digest.
abbrev pub receive : Outside → Option (List ℕ) → ℕ → String → Result AttachmentError (List ℕ)
receive o none expected_bytes expected_sha256 = err storage
receive o (some bytes) expected_bytes expected_sha256 =
    refuse_if (not (length bytes == expected_bytes)) incomplete
    >> refuse_if (not (o.digest bytes == expected_sha256)) hash_mismatch
    >> ok bytes

-- `INSERT INTO attachment`, with SQLite's next rowid, and its job.
abbrev pub add_attachment : ℕ → String → String → ℕ → String → List ℕ → ℕ → Files → Files
add_attachment entity_id filename mime expected_bytes sha256 bytes now s = record s {
  attachments =
      record {
        id = last_id s.attachments + 1;
        entity_id = entity_id;
        filename = filename;
        mime = mime;
        size_bytes = expected_bytes;
        sha256 = sha256;
        content = bytes;
        status = uploaded;
        revision = 1;
        last_error = none;
        error_stage = none;
        created_us = now;
      }
      ∷ s.attachments;
  jobs = new_job (last_id s.attachments + 1) ∷ s.jobs;
}

pub write_attachment :
    Outside
    → ℕ
    → String
    → String
    → Option (List ℕ)
    → ℕ
    → String
    → AttachmentLimits
    → ℕ
    → ℕ
    → Files
    → Result AttachmentError (Files × ℕ)
unfolding validate_file
write_attachment o entity_id filename mime reader expected_bytes sha256 limits now excluded s =
    validate_file o entity_id filename mime expected_bytes limits s
    >> check_budget expected_bytes excluded now limits s
    >> receive o reader expected_bytes sha256
    >>= λ bytes. ok (
      add_attachment entity_id filename mime expected_bytes sha256 bytes now s,
      last_id s.attachments + 1,
    )

-- The upload's chunks go, and its row keeps the attachment's identifier.
abbrev pub close_upload : ℕ → ℕ → String → Files → Files
close_upload upload_id id principal s = record s {
  chunks = delete_where (λ c. c.upload_id == upload_id) s.chunks;
  uploads =
      update_where (λ u. u.upload_id == upload_id && u.principal == principal)
        (λ u. record u { attachment_id = some id }) s.uploads;
}

abbrev pub finish_open :
    Outside → UploadSession → ℕ → AttachmentLimits → Files → Result AttachmentError (Files × ℕ)
finish_open o upload now limits s =
    refuse_if (leb upload.expires_us now) expired_session
    >> refuse_if (not (upload.received_bytes == upload.expected_bytes)) incomplete
    >> write_attachment o upload.entity_id upload.filename upload.mime
        (read_chunks upload.upload_id 0 upload.next_index s.chunks) upload.expected_bytes
        upload.sha256 limits now upload.upload_id s
    >>= λ (s', id). ok (close_upload upload.upload_id id upload.principal s', id)

abbrev pub committed : Files → Result AttachmentError (Files × ℕ) → Files × Result AttachmentError ℕ
committed s (ok (s', id)) = (s', ok id)
committed s (err e) = (s, err e)

pub finish_upload :
    Outside → String → ℕ → ℕ → AttachmentLimits → Files → Files × Result AttachmentError ℕ
unfolding session write_attachment
finish_upload o principal upload_id now limits s = elim (session upload_id principal s) [
  | err e ↦ (s, err e)
  | ok upload ↦ elim upload.attachment_id [
    | some id ↦ (s, ok id)
    | none ↦ committed s (finish_open o upload now limits s)
  ]
]

pub cancel_upload : String → ℕ → Files → Files × Result AttachmentError (Unit {0})
unfolding session
cancel_upload principal upload_id s = elim (session upload_id principal s) [
  | err e ↦ (s, err e)
  | ok upload ↦ (
    record s {
      chunks = delete_where (λ c. c.upload_id == upload_id) s.chunks;
      uploads = delete_where (λ u. u.upload_id == upload_id) s.uploads;
    },
    ok tt,
  )
]

abbrev pub is_expired : ℕ → UploadSession → Bool
is_expired now u = is_none u.attachment_id && leb u.expires_us now

pub expire_uploads : ℕ → Files → Files × ℕ
expire_uploads now s = (
  record s {
    chunks =
        delete_where
          (λ c. exists_where (λ u. u.upload_id == c.upload_id && is_expired now u) s.uploads)
          s.chunks;
    uploads = delete_where (is_expired now) s.uploads;
  },
  count_where (is_expired now) s.uploads,
)

pub store_reader :
    Outside
    → ℕ
    → String
    → String
    → Option (List ℕ)
    → ℕ
    → String
    → AttachmentLimits
    → ℕ
    → Files
    → Files × Result AttachmentError ℕ
unfolding write_attachment
store_reader o entity_id filename mime reader expected_bytes sha256 limits now s =
    committed s
      (write_attachment o entity_id filename mime reader expected_bytes sha256 limits now 0 s)
