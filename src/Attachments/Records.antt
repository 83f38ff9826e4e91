-- ===== src/Attachments/Records.antt =====
-- The rows and values of attachment uploads: attachments.rs, 0015_attachments.sql.
use mcpmem.Prelude.{ℕ, Bool, String, Option, none, List, Eq}
use mcpmem.Events.Records.{DeliveryState, pending}

-- The variants of `AttachmentError`; the words of the first ones name the column that is refused.
pub data AttachmentError : Type 0 where
  filename_refused duplicate_filename mime_refused size_refused workspace_budget not_found
        wrong_principal expired_session order_refused empty_chunk incomplete hash_mismatch storage :
      AttachmentError

pub record AttachmentLimits : Type 0 where
  pub max_bytes : ℕ
  pub workspace_byte_budget : ℕ
  pub allow_mime : List String

pub data AttachmentStatus : Type 0 where
  uploaded extracting ready error : AttachmentStatus

unfoldable pub AttachmentStatus-discrete : Discrete AttachmentStatus
AttachmentStatus-discrete = hlevel

instance abbrev pub status_eq : Eq AttachmentStatus
status_eq = record { decide = AttachmentStatus-discrete }

-- A row of `attachment`.
pub record Attachment : Type 0 where
  pub id : ℕ
  pub entity_id : ℕ
  pub filename : String
  pub mime : String
  pub size_bytes : ℕ
  pub sha256 : String
  pub content : List ℕ
  pub status : AttachmentStatus
  pub revision : ℕ
  pub last_error : Option String
  pub error_stage : Option String
  pub created_us : ℕ

-- A row of `attachment_upload`.
pub record UploadSession : Type 0 where
  pub upload_id : ℕ
  pub principal : String
  pub entity_id : ℕ
  pub filename : String
  pub mime : String
  pub expected_bytes : ℕ
  pub sha256 : String
  pub received_bytes : ℕ
  pub next_index : ℕ
  pub expires_us : ℕ
  pub attachment_id : Option ℕ

-- A row of `attachment_upload_chunk`.
pub record UploadChunk : Type 0 where
  pub upload_id : ℕ
  pub chunk_index : ℕ
  pub content : List ℕ

-- A row of `attachment_job`.
pub record ExtractionJob : Type 0 where
  pub attachment_id : ℕ
  pub state : DeliveryState
  pub lease_token : Option ℕ
  pub lease_epoch : ℕ
  pub lease_until_us : ℕ
  pub next_attempt_us : ℕ
  pub attempts : ℕ
  pub last_error : Option String

abbrev pub new_job : ℕ → ExtractionJob
new_job attachment_id = record {
  attachment_id = attachment_id;
  state = pending;
  lease_token = none;
  lease_epoch = 0;
  lease_until_us = 0;
  next_attempt_us = 0;
  attempts = 0;
  last_error = none;
}

-- A row of `attachment_text`.
pub record PageText : Type 0 where
  pub attachment_id : ℕ
  pub page : ℕ
  pub text : String
  pub chars : ℕ

-- A row of `attachment_chunk`.
pub record Segment : Type 0 where
  pub attachment_id : ℕ
  pub chunk_index : ℕ
  pub page : ℕ
  pub segment_index : ℕ
  pub text : String

pub record Files : Type 0 where
  pub attachments : List Attachment
  pub uploads : List UploadSession
  pub chunks : List UploadChunk
  pub jobs : List ExtractionJob
  pub texts : List PageText
  pub segments : List Segment

-- What the uploads read of the rest: the entities that live in the graph, and SHA-256.
pub record Outside : Type 0 where
  pub is_live : ℕ → Bool
  pub digest : List ℕ → String
