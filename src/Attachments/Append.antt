-- ===== src/Attachments/Append.antt =====
-- crates/mcpmem-core/src/attachments.rs: append_chunk.
use mcpmem.Prelude.{
  ℕ, ◌+◌, Bool, ◌&&◌, not, String, List, ◌∷◌, ltb, leb, ◌==◌, nat_eq, text_eq, if◌then◌else◌,
  Result, ok, err, ◌>>=◌, ◌>>◌, refuse_if, exists_where, update_where, length,
}
use mcpmem.Events.Records.{i64_max}
use mcpmem.Attachments.Records.{
  AttachmentError, size_refused, not_found, expired_session, order_refused, empty_chunk,
  UploadSession, Files, Outside,
}
use mcpmem.Attachments.Admission.{bytes_eq, bytes_discrete, chunk_bytes, is_none, session}

-- The chunk that came last, sent again with the same bytes.
abbrev pub is_replay : UploadSession → ℕ → List ℕ → Files → Bool
is_replay upload index content s =
    (index + 1) == upload.next_index
    && exists_where
        (λ c. c.upload_id == upload.upload_id && c.chunk_index == index && c.content == content)
        s.chunks

abbrev pub add_chunk : UploadSession → ℕ → List ℕ → Files → Files
add_chunk upload index content s = record s {
  uploads =
      update_where (λ u. u.upload_id == upload.upload_id)
        (λ u. record u {
          next_index = u.next_index + 1;
          received_bytes = upload.received_bytes + length content;
        })
        s.uploads;
  chunks =
      record { upload_id = upload.upload_id; chunk_index = index; content = content } ∷ s.chunks;
}

-- The next index, and no more bytes than were declared.
abbrev pub takes : UploadSession → ℕ → List ℕ → Result AttachmentError (Unit {0})
takes upload index content =
    refuse_if (not (index == upload.next_index)) order_refused
    >> refuse_if (ltb i64_max (upload.received_bytes + length content)) size_refused
    >> refuse_if (ltb upload.expected_bytes (upload.received_bytes + length content)) size_refused

abbrev pub append_to : UploadSession → ℕ → List ℕ → Files → Files × Result AttachmentError (ℕ × ℕ)
append_to upload index content s =
    if is_replay upload index content s
    then (s, ok (upload.next_index, upload.received_bytes))
    else elim (takes upload index content) [
      | err e ↦ (s, err e)
      | ok _ ↦ (
        add_chunk upload index content s,
        ok (upload.next_index + 1, upload.received_bytes + length content),
      )
    ]

-- The checks before the index is looked at.
abbrev pub may_append :
    Outside → String → ℕ → List ℕ → ℕ → Files → Result AttachmentError UploadSession
may_append o principal upload_id content now s =
    refuse_if (ltb chunk_bytes (length content)) size_refused
    >> refuse_if (length content == 0) empty_chunk
    >> session upload_id principal s
    >>= λ upload.
        refuse_if (not (is_none upload.attachment_id)) order_refused
        >> refuse_if (leb upload.expires_us now) expired_session
        >> refuse_if (not (o.is_live upload.entity_id)) not_found
        >> ok upload

unfoldable pub append_chunk :
    Outside → String → ℕ → ℕ → List ℕ → ℕ → Files → Files × Result AttachmentError (ℕ × ℕ)
unfolding session bytes_discrete
append_chunk o principal upload_id index content now s =
    elim (may_append o principal upload_id content now s) [
      | err e ↦ (s, err e)
      | ok upload ↦ append_to upload index content s
    ]
