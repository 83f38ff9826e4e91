-- ===== src/Attachments/Quota.antt =====
-- crates/mcpmem-core/src/attachments.rs: no sequence of operations exceeds the byte budget.
use mcpmem.Prelude.{
  Result-cases, ℕ, ◌≤◌, ◌≡◌, refl, sym, subst, false, ◌&&◌, String, Option, some, List, [], ◌∷◌,
  arith, inl, inr, Option-cases, ◌==◌, nat_eq, text_eq, ok, first_where, first_where-test,
  exists_where, Keyed-update, Keyed-delete,
}
use mcpmem.Attachments.Records.{Files, UploadSession, AttachmentLimits, Outside}
use mcpmem.Attachments.{
  session, begin_upload_at, append_chunk, finish_upload, cancel_upload, expire_uploads, is_expired,
  store_reader, stored_bytes,
}
use mcpmem.Attachments.Budget.{
  Within, Within-later, begin-Within, append-Within, close_upload-reserved, reserved_bytes-delete,
  session-found,
}
use mcpmem.Attachments.Finish.{Finished, write_attachment-Checked, finish_open-Finished}

store-Within :
    (o : Outside) (entity : ℕ) (filename mime : String) (reader : Option (List ℕ)) (size : ℕ)
    (sha256 : String) (limits : AttachmentLimits) (now : ℕ) (s : Files)
    → Within limits now s
    → Within limits now (store_reader o entity filename mime reader size sha256 limits now s).0
unfolding store_reader stored_bytes
store-Within o entity filename mime reader size sha256 limits now s v =
    elim (write_attachment-Checked o entity filename mime reader size sha256 limits now 0 s) [
      | inl (e, bad) ↦ rw (bad, store_reader) v
      | inr (bytes, checked, good) ↦
          rw (good, store_reader) (record { budget = omega (arith, checked.fits); keyed = v.keyed })
    ]

close-Within :
    (o : Outside) (principal : String) (id : ℕ) (limits : AttachmentLimits) (now attachment : ℕ)
    (s s' : Files) (u : UploadSession)
    → session id principal s ≡ ok u
    → Finished o u now limits s attachment s'
    → Within limits now s
    → Within limits now s'
unfolding stored_bytes
close-Within o principal id limits now attachment s s' u h f v =
    let (found, own) = session-found id principal s u h in
    let same : u.upload_id ≡ id =
      ground (arith, first_where-test (λ (q : UploadSession). q.upload_id == id) s.uploads found) in
    subst (Within limits now) (sym f.left) (record {
      budget = omega (
        arith,
        f.checked.fits,
        close_upload-reserved u.upload_id attachment u now s.uploads v.keyed
            (subst (λ i. first_where (λ (q : UploadSession). q.upload_id == i) s.uploads ≡ some u)
              (sym same) found)
            refl,
      );
      keyed =
          Keyed-update (λ (q : UploadSession). q.upload_id)
            (λ q. q.upload_id == u.upload_id && q.principal == u.principal)
            (λ q. record q { attachment_id = some attachment }) s.uploads (λ _ _. refl) v.keyed;
    })

finish-Within :
    (o : Outside) (principal : String) (id now : ℕ) (limits : AttachmentLimits) (s : Files)
    → Within limits now s
    → Within limits now (finish_upload o principal id now limits s).0
unfolding finish_upload
finish-Within o principal id now limits s v = elim (Result-cases (session id principal s)) [
  | inl (e, bad) ↦ rw (bad, finish_upload) v
  | inr (u, good) ↦ elim (Option-cases u.attachment_id) [
    | inr (old, before) ↦ rw (good, finish_upload, before) v
    | inl unfinished ↦ elim (finish_open-Finished o u now limits s) [
      | inl (e, bad) ↦ rw (good, finish_upload, unfinished, bad) v
      | inr (s', attachment, done, finished) ↦
          rw (good, finish_upload, unfinished, done)
            (close-Within o principal id limits now attachment s s' u good finished v)
    ]
  ]
]

cancel-Within :
    (principal : String) (id now : ℕ) (limits : AttachmentLimits) (s : Files)
    → Within limits now s
    → Within limits now (cancel_upload principal id s).0
unfolding cancel_upload
cancel-Within principal id now limits s v = elim (Result-cases (session id principal s)) [
  | inl (e, bad) ↦ rw (bad, cancel_upload) v
  | inr (u, good) ↦
      rw (good, cancel_upload)
        (record {
          budget = omega (
            arith,
            v.budget,
            reserved_bytes-delete 0 now (λ (q : UploadSession). q.upload_id == id) s.uploads,
          );
          keyed =
              Keyed-delete (λ (q : UploadSession). q.upload_id) (λ q. q.upload_id == id) s.uploads
                v.keyed;
        })
]

expire-Within :
    (clock now : ℕ) (limits : AttachmentLimits) (s : Files)
    → Within limits now s
    → Within limits now (expire_uploads clock s).0
unfolding expire_uploads
expire-Within clock now limits s v = record {
  budget = omega (arith, v.budget, reserved_bytes-delete 0 now (is_expired clock) s.uploads);
  keyed = Keyed-delete (λ (q : UploadSession). q.upload_id) (is_expired clock) s.uploads v.keyed;
}

-- The operations on uploads, each with its clock.
pub data Op : Type 0 where
  begins : ℕ → String → ℕ → String → String → ℕ → String → ℕ → ℕ → Op
  appends : String → ℕ → ℕ → List ℕ → ℕ → Op
  finishes : String → ℕ → ℕ → Op
  cancels : String → ℕ → ℕ → Op
  expires : ℕ → Op
  stores : ℕ → String → String → Option (List ℕ) → ℕ → String → ℕ → Op

unfoldable pub step : Outside → AttachmentLimits → Op → Files → Files
step o limits (begins id principal entity filename mime size sha256 now until) s =
    (begin_upload_at o id principal entity filename mime size sha256 now until limits s).0
step o limits (appends principal id index content now) s =
    (append_chunk o principal id index content now s).0
step o limits (finishes principal id now) s = (finish_upload o principal id now limits s).0
step o limits (cancels principal id now) s = (cancel_upload principal id s).0
step o limits (expires now) s = (expire_uploads now s).0
step o limits (stores entity filename mime reader size sha256 now) s =
    (store_reader o entity filename mime reader size sha256 limits now s).0

abbrev pub clock_of : Op → ℕ
clock_of (begins id principal entity filename mime size sha256 now until) = now
clock_of (appends principal id index content now) = now
clock_of (finishes principal id now) = now
clock_of (cancels principal id now) = now
clock_of (expires now) = now
clock_of (stores entity filename mime reader size sha256 now) = now

-- An upload that begins draws a new identifier.
abbrev pub Fresh : Op → Files → Type 0
Fresh (begins id principal entity filename mime size sha256 now until) s =
    exists_where (λ u. u.upload_id == id) s.uploads ≡ false
Fresh (appends principal id index content now) s = Unit
Fresh (finishes principal id now) s = Unit
Fresh (cancels principal id now) s = Unit
Fresh (expires now) s = Unit
Fresh (stores entity filename mime reader size sha256 now) s = Unit

step-Within :
    (o : Outside) (limits : AttachmentLimits) (op : Op) (s : Files)
    → Fresh op s
    → Within limits (clock_of op) s
    → Within limits (clock_of op) (step o limits op s)
unfolding step
step-Within o limits (begins id principal entity filename mime size sha256 now until) s fresh v =
    begin-Within o id principal entity filename mime size sha256 now until limits s fresh v
step-Within o limits (appends principal id index content now) s _ v =
    append-Within o principal id index content now limits s v
step-Within o limits (finishes principal id now) s _ v = finish-Within o principal id now limits s v
step-Within o limits (cancels principal id now) s _ v = cancel-Within principal id now limits s v
step-Within o limits (expires now) s _ v = expire-Within now now limits s v
step-Within o limits (stores entity filename mime reader size sha256 now) s _ v =
    store-Within o entity filename mime reader size sha256 limits now s v

unfoldable pub run : Outside → AttachmentLimits → List Op → Files → Files
run o limits [] s = s
run o limits (op ∷ ops) s = run o limits ops (step o limits op s)

-- Clocks never run backwards, and every upload that begins draws a new identifier.
abbrev pub Admitted : Outside → AttachmentLimits → ℕ → List Op → Files → Type 0
Admitted o limits t [] s = Unit
Admitted o limits t (op ∷ ops) s =
    (t ≤ clock_of op) × Fresh op s × Admitted o limits (clock_of op) ops (step o limits op s)

abbrev pub last_clock : ℕ → List Op → ℕ
last_clock t [] = t
last_clock t (op ∷ ops) = last_clock (clock_of op) ops

-- If clocks never run backwards and every upload that begins draws a new identifier, then no sequence
-- of operations on uploads takes the stored attachments and the reservations that have not expired
-- beyond the byte budget of the workspace.
pub run-Within :
    (o : Outside) (limits : AttachmentLimits) (t : ℕ) (ops : List Op) (s : Files)
    → Admitted o limits t ops s
    → Within limits t s
    → Within limits (last_clock t ops) (run o limits ops s)
unfolding run
run-Within o limits t [] s _ v = v
run-Within o limits t (op ∷ ops) s (le, fresh, more) v =
    run-Within o limits (clock_of op) ops (step o limits op s) more
      (step-Within o limits op s fresh (Within-later limits t (clock_of op) s le v))
