-- ===== src/Attachments/Finish.antt =====
-- crates/mcpmem-core/src/attachments.rs: what an upload has become when it is finished.
use mcpmem.Prelude.{
  Result-cases, ℕ, ◌+◌, ◌≤◌, ◌<◌, ◌≡◌, refl, String, Option, none, some, List, arith, inl, inr, ◌⊎◌,
  Bool-cases, ◌==◌, nat_eq, text_eq, ok, err, ltb, leb, length,
}
use mcpmem.Attachments.Records.{
  Files, UploadSession, AttachmentError, AttachmentLimits, Outside, workspace_budget, storage,
  incomplete, hash_mismatch, expired_session,
}
use mcpmem.Attachments.{
  total, validate_file, write_attachment, add_attachment, finish_open, close_upload, read_chunks,
  last_id,
}

-- What a written attachment rests on.
pub record Checked (o : Outside) (entity : ℕ) (filename mime : String) (reader : Option (List ℕ))
    (size : ℕ) (sha256 : String) (limits : AttachmentLimits) (now excluded : ℕ) (s : Files)
    (bytes : List ℕ) : Type 0 where
  pub valid : validate_file o entity filename mime size limits s ≡ ok tt
  pub fits : total excluded now s + size ≤ limits.workspace_byte_budget
  pub read : reader ≡ some bytes
  pub full : length bytes ≡ size
  pub hashed : o.digest bytes ≡ sha256

pub write_attachment-Checked :
    (o : Outside) (entity : ℕ) (filename mime : String) (reader : Option (List ℕ)) (size : ℕ)
    (sha256 : String) (limits : AttachmentLimits) (now excluded : ℕ) (s : Files)
    → ((e : AttachmentError) × (write_attachment o entity filename mime reader size sha256 limits
            now excluded s
          ≡ err e))
      ⊎ ((bytes : List ℕ) × Checked o entity filename mime reader size sha256 limits now excluded s
            bytes
          × (write_attachment o entity filename mime reader size sha256 limits now excluded s
              ≡ ok (
                add_attachment entity filename mime size sha256 bytes now s,
                last_id s.attachments + 1,
              )))
unfolding write_attachment
write_attachment-Checked o entity filename mime none size sha256 limits now excluded s =
    elim (Result-cases (validate_file o entity filename mime size limits s)) [
      | inl (e, bad) ↦ inl (e, ground (arith, bad))
      | inr (_, good) ↦
          elim (Bool-cases (ltb limits.workspace_byte_budget (total excluded now s + size))) [
            | inl full ↦ inl (workspace_budget, rw (good, write_attachment, full) refl)
            | inr fits ↦ inl (storage, rw (good, write_attachment, fits) refl)
          ]
    ]
write_attachment-Checked o entity filename mime (some bytes) size sha256 limits now excluded s =
    elim (Result-cases (validate_file o entity filename mime size limits s)) [
      | inl (e, bad) ↦ inl (e, ground (arith, bad))
      | inr (_, good) ↦
          elim (Bool-cases (ltb limits.workspace_byte_budget (total excluded now s + size))) [
            | inl full ↦ inl (workspace_budget, rw (good, write_attachment, full) refl)
            | inr fits ↦ elim (Bool-cases (length bytes == size)) [
              | inr short ↦ inl (incomplete, rw (good, write_attachment, fits, short) refl)
              | inl all_there ↦ elim (Bool-cases (o.digest bytes == sha256)) [
                | inr differs ↦
                    inl (hash_mismatch, rw (good, write_attachment, fits, all_there, differs) refl)
                | inl hashed ↦ inr (
                  bytes,
                  record {
                    valid = good;
                    fits = ground arith;
                    read = refl;
                    full = ground arith;
                    hashed = ground arith;
                  },
                  rw (good, write_attachment, fits, all_there, hashed) refl,
                )
              ]
            ]
          ]
    ]

-- A finished upload's attachment has the declared size and digest, is what the chunks add up to, and
-- the checks of the file and of the budget passed when it was written.
pub record Finished (o : Outside) (upload : UploadSession) (now : ℕ) (limits : AttachmentLimits)
    (s : Files) (id : ℕ) (s' : Files) : Type 0 where
  pub bytes : List ℕ
  pub in_time : now < upload.expires_us
  pub received : upload.received_bytes ≡ upload.expected_bytes
  pub checked :
      Checked o upload.entity_id upload.filename upload.mime
        (read_chunks upload.upload_id 0 upload.next_index s.chunks)
        upload.expected_bytes
        upload.sha256
        limits
        now
        upload.upload_id
        s
        bytes
  pub identifier : id ≡ last_id s.attachments + 1
  pub left :
      s'
      ≡ close_upload upload.upload_id id upload.principal (
          add_attachment upload.entity_id upload.filename upload.mime upload.expected_bytes
            upload.sha256 bytes now s)

pub finish_open-Finished :
    (o : Outside) (upload : UploadSession) (now : ℕ) (limits : AttachmentLimits) (s : Files)
    → ((e : AttachmentError) × (finish_open o upload now limits s ≡ err e))
      ⊎ ((s' : Files) × (id : ℕ) × (finish_open o upload now limits s ≡ ok (s', id))
          × Finished o upload now limits s id s')
finish_open-Finished o upload now limits s = elim (Bool-cases (leb upload.expires_us now)) [
  | inl late ↦ inl (expired_session, rw late refl)
  | inr early ↦ elim (Bool-cases (upload.received_bytes == upload.expected_bytes)) [
    | inr short ↦ inl (incomplete, rw (early, short) refl)
    | inl full ↦
        elim (write_attachment-Checked o upload.entity_id upload.filename upload.mime
          (read_chunks upload.upload_id 0 upload.next_index s.chunks) upload.expected_bytes
          upload.sha256 limits now upload.upload_id s) [
            | inl (e, bad) ↦ inl (e, rw (early, full, bad) refl)
            | inr (bytes, checked, good) ↦ inr (
              _,
              _,
              rw (early, full, good) refl,
              record {
                bytes = bytes;
                in_time = ground arith;
                received = ground arith;
                checked = checked;
                identifier = refl;
                left = refl;
              },
            )
          ]
  ]
]
