-- ===== src/Attachments/Budget.antt =====
-- crates/mcpmem-core/src/attachments.rs: uploads stay within the byte budget of the workspace.
use mcpmem.Prelude.{
  Result-cases, ℕ, ◌+◌, ◌≤◌, ◌≡◌, refl, subst, ap, ◌∙◌, Bool, true, false, ◌&&◌, String, some, List,
  [], ◌∷◌, All, All-map, All-of, arith, inl, inr, Bool-cases, Option-cases, ◌==◌, nat_eq, text_eq,
  Result, ok, update_where, delete_where, first_where, exists_where, first_where-Keyed, Keyed,
  Keyed-update, Keyed-insert, if_case, ltb, length,
}
use mcpmem.Attachments.Records.{Files, UploadSession, AttachmentError, AttachmentLimits, Outside}
use mcpmem.Attachments.{
  total, counts, reserved_bytes, session, validate_file, begin_upload_at, append_chunk, may_append,
  add_chunk, is_replay, takes, new_upload,
}

pub reserved_bytes-update :
    (excluded other now : ℕ) (hit : UploadSession → Bool) (set : UploadSession → UploadSession)
    (us : List UploadSession)
    → All
        (λ u.
          (hit u ≡ true → counts excluded now (set u) ≡ true → counts other now u ≡ true)
          × (hit u ≡ false → counts excluded now u ≡ true → counts other now u ≡ true))
        us
    → ((u : UploadSession) → (set u).expected_bytes ≡ u.expected_bytes)
    → reserved_bytes excluded now (update_where hit set us) ≤ reserved_bytes other now us
unfolding reserved_bytes
reserved_bytes-update excluded other now hit set [] a same = omega arith
reserved_bytes-update excluded other now hit set (u ∷ us) ((f, g), a) same =
    ground (arith, f, g, same u, reserved_bytes-update excluded other now hit set us a same)

pub reserved_bytes-delete :
    (excluded now : ℕ) (gone : UploadSession → Bool) (us : List UploadSession)
    → reserved_bytes excluded now (delete_where gone us) ≤ reserved_bytes excluded now us
unfolding reserved_bytes
reserved_bytes-delete excluded now gone [] = omega arith
reserved_bytes-delete excluded now gone (u ∷ us) =
    ground (arith, reserved_bytes-delete excluded now gone us)

reserved_bytes-later :
    (excluded now later : ℕ) (us : List UploadSession)
    → now ≤ later
    → reserved_bytes excluded later us ≤ reserved_bytes excluded now us
unfolding reserved_bytes
reserved_bytes-later excluded now later [] le = omega arith
reserved_bytes-later excluded now later (u ∷ us) le =
    ground (arith, reserved_bytes-later excluded now later us le)

-- The completed attachments and the reservations that run fit the budget, and the uploads'
-- identifiers are distinct.
pub record Within (limits : AttachmentLimits) (now : ℕ) (s : Files) : Type 0 where
  pub budget : total 0 now s ≤ limits.workspace_byte_budget
  pub keyed : Keyed (λ (u : UploadSession). u.upload_id) s.uploads

pub Within-later :
    (limits : AttachmentLimits) (now later : ℕ) (s : Files)
    → now ≤ later
    → Within limits now s
    → Within limits later s
Within-later limits now later s le v = record {
  budget = omega (arith, v.budget, reserved_bytes-later 0 now later s.uploads le);
  keyed = v.keyed;
}

pub begin-Within :
    (o : Outside) (id : ℕ) (principal : String) (entity : ℕ) (filename mime : String) (size : ℕ)
    (sha256 : String) (now expires : ℕ) (limits : AttachmentLimits) (s : Files)
    → exists_where (λ u. u.upload_id == id) s.uploads ≡ false
    → Within limits now s
    → Within limits now
        (begin_upload_at o id principal entity filename mime size sha256 now expires limits s).0
unfolding begin_upload_at reserved_bytes
begin-Within o id principal entity filename mime size sha256 now expires limits s fresh v =
    elim (Result-cases (validate_file o entity filename mime size limits s)) [
      | inl (e, bad) ↦ rw (bad, begin_upload_at) v
      | inr (_, good) ↦
          elim (Bool-cases (ltb limits.workspace_byte_budget (total 0 now s + size))) [
            | inl full ↦ rw (good, begin_upload_at, full) v
            | inr fits ↦
                rw (good, begin_upload_at, fits)
                  (record {
                    budget = ground arith;
                    keyed =
                        Keyed-insert (λ (u : UploadSession). u.upload_id)
                          (new_upload id principal entity filename mime size sha256 expires)
                          s.uploads fresh v.keyed;
                  })
          ]
    ]

add_chunk-Within :
    (upload : UploadSession) (index : ℕ) (content : List ℕ) (limits : AttachmentLimits) (now : ℕ)
    (s : Files)
    → Within limits now s
    → Within limits now (add_chunk upload index content s)
add_chunk-Within upload index content limits now s v = record {
  budget = omega (
    arith,
    v.budget,
    reserved_bytes-update 0 0 now (λ u. u.upload_id == upload.upload_id)
        (λ u. record u {
          next_index = u.next_index + 1;
          received_bytes = upload.received_bytes + length content;
        })
        s.uploads (All-of _ s.uploads (λ u. (λ _ h. h, λ _ h. h))) (λ u. refl),
  );
  keyed =
      Keyed-update (λ (u : UploadSession). u.upload_id) (λ u. u.upload_id == upload.upload_id)
        (λ u. record u {
          next_index = u.next_index + 1;
          received_bytes = upload.received_bytes + length content;
        })
        s.uploads (λ u _. refl) v.keyed;
}

pub append-Within :
    (o : Outside) (principal : String) (id index : ℕ) (content : List ℕ) (now : ℕ)
    (limits : AttachmentLimits) (s : Files)
    → Within limits now s
    → Within limits now (append_chunk o principal id index content now s).0
unfolding append_chunk
append-Within o principal id index content now limits s v =
    elim (Result-cases (may_append o principal id content now s)) [
      | inl (e, bad) ↦ rw (bad, append_chunk) v
      | inr (upload, good) ↦
          rw (good, append_chunk)
            (if_case (λ (q : Files × Result AttachmentError (ℕ × ℕ)). Within limits now q.0)
              (is_replay upload index content s) (λ _. v)
              (λ _. elim (Result-cases (takes upload index content)) [
                | inl (e, bad) ↦ rw bad v
                | inr (_, taken) ↦ rw taken (add_chunk-Within upload index content limits now s v)
              ]))
    ]

pub session-found :
    (id : ℕ) (principal : String) (s : Files) (u : UploadSession)
    → session id principal s ≡ ok u
    → (first_where (λ u. u.upload_id == id) s.uploads ≡ some u) × (u.principal ≡ principal)
unfolding session
session-found id principal s u h =
    elim (Option-cases (first_where (λ u. u.upload_id == id) s.uploads)) [
      | inl missing ↦ let no : ⊥ = ground (arith, missing) in absurd no
      | inr (x, found) ↦ elim (Bool-cases (x.principal == principal)) [
        | inr other ↦ let no : ⊥ = ground (arith, found) in absurd no
        | inl own ↦
            let same : x ≡ u = ground (arith, found) in
            (
              found ∙ ap some same,
              subst (λ (q : UploadSession). q.principal ≡ principal) same (ground arith),
            )
      ]
    ]

-- Closing an upload frees its reservation.
pub close_upload-reserved :
    (id attachment : ℕ) (u : UploadSession) (now : ℕ) (us : List UploadSession)
    → Keyed (λ (u : UploadSession). u.upload_id) us
    → first_where (λ x. x.upload_id == id) us ≡ some u
    → u.upload_id ≡ id
    → reserved_bytes 0 now (
        update_where
          (λ x. x.upload_id == id && x.principal == u.principal)
          (λ x. record x { attachment_id = some attachment })
          us)
      ≤ reserved_bytes id now us
close_upload-reserved id attachment u now us keyed found same =
    reserved_bytes-update 0 id now (λ x. x.upload_id == id && x.principal == u.principal)
      (λ x. record x { attachment_id = some attachment }) us
      (All-map _ _ us (λ x only. (λ _ h. ground arith, λ miss h. ground (arith, only)))
        (first_where-Keyed (λ (x : UploadSession). x.upload_id) (λ x. x.principal)
          (λ x. x.upload_id == id) us keyed found))
      (λ x. refl)
