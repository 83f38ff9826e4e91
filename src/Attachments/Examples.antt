-- ===== src/Attachments/Examples.antt =====
-- Tests of uploads, and their theorems at concrete inputs. The digest names the length here.
use mcpmem.Prelude.{
  ℕ, ℕ_discrete, String, List, none, All, select, count_where, earliest, ◌≤◌, ◌≡◌, refl,
  String-discrete, true, false, some, [], ◌∷◌, arith, ok,
}
use mcpmem.Attachments.Records.{
  AttachmentStatus, status_eq, AttachmentStatus-discrete, ExtractionJob, new_job, Segment, Files,
  UploadSession, AttachmentLimits, Outside,
}
use mcpmem.Events.Records.{DeliveryState, DeliveryState-discrete, token-discrete}
use mcpmem.Events.{lease_until}
use mcpmem.Index.Records.{Index, RegistryState}
use mcpmem.Attachments.Segments.{FitsSegment}
use mcpmem.Attachments.Extraction.{AttachmentJob, complete, is_refused, claim_due}
use mcpmem.Attachments.Extraction.Pages.{page_join, of_attachment, Consecutive, complete-pages}
use mcpmem.Attachments.Extraction.Attempts as Extractor
use mcpmem.Attachments.Extraction.Attempts.{is_for, run_at_most_eight}
use mcpmem.Attachments.{
  append_chunk, session, new_upload, bytes_discrete, stored_bytes, reserved_bytes,
}
use mcpmem.Attachments.Mime.{is_allowed, is_below, strip_wildcard, strip_prefix, starts_with_slash}
use mcpmem.Attachments.Budget.{Within}
use mcpmem.Attachments.Replay.{append_chunk_replay}
use mcpmem.Attachments.Quota.{appends, finishes, run, run-Within}

abbrev outside : Outside
outside = record { is_live = λ _. true; digest = λ _. "sha" }

abbrev limits : AttachmentLimits
limits = record { max_bytes = 10; workspace_byte_budget = 12; allow_mime = "image/*" ∷ [] }

wildcard : is_allowed ("image/*" ∷ []) "image/png" ≡ true
unfolding is_allowed is_below strip_wildcard strip_prefix starts_with_slash String-discrete
    ℕ_discrete
wildcard = refl

other_type : is_allowed ("image/*" ∷ []) "imagepng" ≡ false
unfolding is_allowed is_below strip_wildcard strip_prefix starts_with_slash String-discrete
    ℕ_discrete
other_type = refl

abbrev upload : UploadSession
upload = new_upload 7 "ann" 3 "a.png" "image/png" 2 "sha" 1000

abbrev begun : Files
begun = record {
  attachments = [];
  uploads = upload ∷ [];
  chunks = [];
  jobs = [];
  texts = [];
  segments = [];
}

accepted : (append_chunk outside "ann" 7 0 (1 ∷ 2 ∷ []) 20 begun).1 ≡ ok (1, 2)
unfolding append_chunk session bytes_discrete String-discrete ℕ_discrete
accepted = refl

found : session 7 "ann" begun ≡ ok upload
unfolding session String-discrete ℕ_discrete
found = refl

append_chunk_replay_example :
    let s' = (append_chunk outside "ann" 7 0 (1 ∷ 2 ∷ []) 20 begun).0 in
    append_chunk outside "ann" 7 0 (1 ∷ 2 ∷ []) 30 s' ≡ (s', ok (1, 2))
append_chunk_replay_example =
    append_chunk_replay outside "ann" 7 0 (1 ∷ 2 ∷ []) 20 30 begun upload (1, 2) found accepted
      (omega arith)

abbrev full : Files
full = record {
  attachments = [];
  uploads = record upload { received_bytes = 2; next_index = 1 } ∷ [];
  chunks = record { upload_id = 7; chunk_index = 0; content = 1 ∷ 2 ∷ [] } ∷ [];
  jobs = [];
  texts = [];
  segments = [];
}

run-Within_example :
    Within limits 40
      (run outside limits (appends "ann" 7 0 (1 ∷ 2 ∷ []) 20 ∷ finishes "ann" 7 40 ∷ []) begun)
unfolding reserved_bytes stored_bytes
run-Within_example =
    run-Within outside limits 10 (appends "ann" 7 0 (1 ∷ 2 ∷ []) 20 ∷ finishes "ann" 7 40 ∷ [])
      begun (omega arith, tt, (omega arith, tt, tt))
      (record { budget = ground arith; keyed = (tt, tt) })

abbrev index : Index
index = record {
  registry = record {
    state = RegistryState.active;
    serving = some 5;
    candidate = none;
    failure = none;
  };
  profiles = [];
  jobs = [];
  vectors = [];
  generations = [];
  kind_generations = [];
}

abbrev extracting_job : ExtractionJob
extracting_job = record (new_job 1) {
  state = DeliveryState.leased;
  lease_token = some 9;
  lease_epoch = 1;
  lease_until_us = 100;
  attempts = 1;
}

abbrev extracting_file : Files
extracting_file = record {
  attachments =
      record {
        id = 1;
        entity_id = 3;
        filename = "a.png";
        mime = "image/png";
        size_bytes = 2;
        sha256 = "sha";
        content = 1 ∷ 2 ∷ [];
        status = AttachmentStatus.extracting;
        revision = 1;
        last_error = none;
        error_stage = none;
        created_us = 0;
      }
      ∷ [];
  uploads = [];
  chunks = [];
  jobs = extracting_job ∷ [];
  texts = [];
  segments = [];
}

abbrev lease_of : AttachmentJob
lease_of = record {
  attachment_id = 1;
  revision = 1;
  lease = record { token = 9; epoch = 1; until_us = 100 };
  attempts = 1;
}

abbrev pages : List (ℕ × String)
pages = (1, "Hello") ∷ (2, "world") ∷ []

completed : (complete outside lease_of 20 pages extracting_file index).1 ≡ ok true
unfolding complete is_refused ℕ_discrete DeliveryState-discrete token-discrete
    AttachmentStatus-discrete
completed = refl

complete-pages_example :
    let s' = (complete outside lease_of 20 pages extracting_file index).0.0 in
    All (λ (page, text). page_join 1 page s'.segments ≡ text) pages
    × All (λ (c : Segment). FitsSegment c.text) (select (of_attachment 1) s'.segments)
    × Consecutive 0 (select (of_attachment 1) s'.segments)
complete-pages_example = complete-pages outside lease_of 20 pages extracting_file index completed

abbrev claims_twice : List (Outside × Extractor.Op)
claims_twice = (outside, Extractor.claims 4 200 50) ∷ (outside, Extractor.claims 6 300 50) ∷ []

claimed_twice :
    count_where (is_for 1) (Extractor.run claims_twice ((extracting_file, index), [])).1 ≡ 2
unfolding Extractor.run claim_due earliest lease_until ℕ_discrete DeliveryState-discrete
    AttachmentStatus-discrete
claimed_twice = refl

run_at_most_eight_example :
    count_where (is_for 1) (Extractor.run claims_twice ((extracting_file, index), [])).1 ≤ 8
run_at_most_eight_example = run_at_most_eight claims_twice extracting_file index 1
