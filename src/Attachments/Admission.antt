-- ===== src/Attachments/Admission.antt =====
-- crates/mcpmem-core/src/attachments.rs: validate_file, check_budget and session.
use mcpmem.Prelude.{
  ℕ, ◌+◌, Bool, true, false, ◌&&◌, not, String, Option, none, some, List, [], ◌∷◌, ltb, ◌==◌,
  nat_eq, text_eq, ℕ_discrete, if◌then◌else◌, Result, ok, err, ◌>>◌, refuse_if, first_where,
  exists_where, is_blank, Eq,
}
use mcpmem.Attachments.Records.{
  AttachmentError, filename_refused, duplicate_filename, mime_refused, size_refused,
  workspace_budget, not_found, wrong_principal, AttachmentLimits, Attachment, UploadSession, Files,
  Outside,
}
use mcpmem.Attachments.Mime.{is_allowed}

abbrev pub chunk_bytes : ℕ
chunk_bytes = 1_048_576

abbrev pub upload_ttl_us : ℕ
upload_ttl_us = 3_600_000_000

unfoldable pub bytes_discrete : Discrete (List ℕ)
bytes_discrete = hlevel ℕ_discrete

instance abbrev pub bytes_eq : Eq (List ℕ)
bytes_eq = record { decide = bytes_discrete }

unfoldable pub validate_file :
    Outside → ℕ → String → String → ℕ → AttachmentLimits → Files → Result AttachmentError (Unit {0})
validate_file o entity_id filename mime size limits s =
    refuse_if (is_blank filename) filename_refused
    >> refuse_if (not (is_allowed limits.allow_mime mime)) mime_refused
    >> refuse_if (ltb limits.max_bytes size) size_refused
    >> refuse_if (not (o.is_live entity_id)) not_found
    >> refuse_if
        (exists_where (λ a. a.entity_id == entity_id && a.filename == filename) s.attachments)
        duplicate_filename

abbrev pub is_none : Option ℕ → Bool
is_none none = true
is_none (some x) = false

-- An upload that the budget counts: unfinished, unexpired, and not the one left out.
abbrev pub counts : ℕ → ℕ → UploadSession → Bool
counts excluded now u =
    is_none u.attachment_id && not (u.upload_id == excluded) && ltb now u.expires_us

unfoldable pub stored_bytes : List Attachment → ℕ
stored_bytes [] = 0
stored_bytes (a ∷ rest) = a.size_bytes + stored_bytes rest

unfoldable pub reserved_bytes : ℕ → ℕ → List UploadSession → ℕ
reserved_bytes excluded now [] = 0
reserved_bytes excluded now (u ∷ rest) =
    (if counts excluded now u then u.expected_bytes else 0) + reserved_bytes excluded now rest

abbrev pub total : ℕ → ℕ → Files → ℕ
total excluded now s = stored_bytes s.attachments + reserved_bytes excluded now s.uploads

-- `size > budget.saturating_sub(total)`, whose difference may be negative.
abbrev pub check_budget : ℕ → ℕ → ℕ → AttachmentLimits → Files → Result AttachmentError (Unit {0})
check_budget size excluded now limits s =
    refuse_if (ltb limits.workspace_byte_budget (total excluded now s + size)) workspace_budget

unfoldable pub session : ℕ → String → Files → Result AttachmentError UploadSession
session id principal s = elim (first_where (λ u. u.upload_id == id) s.uploads) [
  | none ↦ err not_found
  | some u ↦ if u.principal == principal then ok u else err wrong_principal
]
