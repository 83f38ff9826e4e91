-- ===== src/Attachments/Removal.antt =====
-- crates/mcpmem-core/src/attachments.rs: the removal of attachments, with what the index has of them.
use mcpmem.Prelude.{
  ℕ, ◌+◌, Bool, ◌&&◌, ◌||◌, not, none, some, List, ◌==◌, nat_eq, if◌then◌else◌, Result, ok, err,
  exists_where, update_where, delete_where,
}
use mcpmem.Attachments.Records.{AttachmentError, not_found, UploadSession, UploadChunk, Files}
use mcpmem.Attachments.{is_none}
use mcpmem.Events.Records.{token_eq}
use mcpmem.Index.Records.{Index, attachment, owner_kind_eq, VectorRow, JobRow, AnnGeneration}

abbrev pub is_incomplete_of : ℕ → UploadSession → Bool
is_incomplete_of entity_id u = u.entity_id == entity_id && is_none u.attachment_id

unfoldable pub entity_has_attachments : ℕ → Files → Bool
entity_has_attachments entity_id s =
    exists_where (λ a. a.entity_id == entity_id) s.attachments
    || exists_where (is_incomplete_of entity_id) s.uploads

abbrev pub is_chunk_of : (UploadSession → Bool) → List UploadSession → UploadChunk → Bool
is_chunk_of test uploads c = exists_where (λ u. u.upload_id == c.upload_id && test u) uploads

unfoldable pub delete_incomplete_uploads_for_entity : ℕ → Files → Files
delete_incomplete_uploads_for_entity entity_id s = record s {
  chunks = delete_where (is_chunk_of (is_incomplete_of entity_id) s.uploads) s.chunks;
  uploads = delete_where (is_incomplete_of entity_id) s.uploads;
}

abbrev pub of_file : ℕ → VectorRow → Bool
of_file id v = v.owner_kind == attachment && v.owner_id == id

abbrev pub job_of_file : ℕ → JobRow → Bool
job_of_file id j = j.owner_kind == attachment && j.owner_id == id

-- The profiles that have a vector or a job of the attachment.
abbrev pub indexes : ℕ → Index → AnnGeneration → Bool
indexes id x g =
    exists_where (λ v. v.profile_id == g.profile_id && of_file id v) x.vectors
    || exists_where (λ j. j.profile_id == g.profile_id && job_of_file id j) x.jobs

abbrev pub advanced : AnnGeneration → AnnGeneration
advanced g = record g { durable_generation = g.durable_generation + 1; full_scan_generation = none }

abbrev pub is_upload_of : ℕ → UploadSession → Bool
is_upload_of id u = u.attachment_id == some id

abbrev pub without_file : ℕ → Files → Files
without_file id s = record {
  attachments = delete_where (λ a. a.id == id) s.attachments;
  uploads = delete_where (is_upload_of id) s.uploads;
  chunks = delete_where (is_chunk_of (is_upload_of id) s.uploads) s.chunks;
  jobs = delete_where (λ j. j.attachment_id == id) s.jobs;
  texts = delete_where (λ t. t.attachment_id == id) s.texts;
  segments = delete_where (λ c. c.attachment_id == id) s.segments;
}

abbrev pub without_index : ℕ → Index → Index
without_index id x = record x {
  generations = update_where (indexes id x) advanced x.generations;
  vectors = delete_where (of_file id) x.vectors;
  jobs = delete_where (job_of_file id) x.jobs;
}

unfoldable pub delete_attachment_rows :
    ℕ → Files → Index → (Files × Index) × Result AttachmentError (Unit {0})
delete_attachment_rows id s x =
    if exists_where (λ a. a.id == id) s.attachments
    then ((without_file id s, without_index id x), ok tt)
    else ((s, x), err not_found)

unfoldable pub delete_attachment :
    ℕ → Files → Index → (Files × Index) × Result AttachmentError (Unit {0})
unfolding delete_attachment_rows
delete_attachment id s x = delete_attachment_rows id s x

abbrev pub is_file_of : ℕ → Files → ℕ → Bool
is_file_of entity_id s id = exists_where (λ a. a.id == id && a.entity_id == entity_id) s.attachments

-- A vector of the entity's attachments that is not of this type.
abbrev pub is_mistyped : ℕ → ℕ → Files → VectorRow → Bool
is_mistyped entity_id type_id s v =
    v.owner_kind == attachment && is_file_of entity_id s v.owner_id && not (v.type_id == type_id)

unfoldable pub refresh_attachment_vector_types : ℕ → ℕ → Files → Index → Index
refresh_attachment_vector_types entity_id type_id s x = record x {
  generations =
      update_where
        (λ g.
          exists_where (λ v. v.profile_id == g.profile_id && is_mistyped entity_id type_id s v)
            x.vectors)
        advanced x.generations;
  vectors =
      update_where (is_mistyped entity_id type_id s) (λ v. record v { type_id = type_id })
        x.vectors;
}
