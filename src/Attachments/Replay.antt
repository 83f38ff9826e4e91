-- ===== src/Attachments/Replay.antt =====
-- crates/mcpmem-core/src/attachments.rs: a chunk that is sent again.
use mcpmem.Prelude.{
  Result-cases, ℕ, ◌+◌, ◌<◌, ◌≡◌, refl, sym, subst, ap, true, false, String, List, arith, inl, inr,
  Bool-cases, ◌==◌, nat_eq, text_eq, Result, ok, first_where-update, ltb, leb, length,
}
use mcpmem.Attachments.Records.{Files, UploadSession, AttachmentError, Outside}
use mcpmem.Attachments.{
  session, append_chunk, may_append, add_chunk, is_replay, takes, is_none, chunk_bytes, bytes_eq,
}
use mcpmem.Attachments.Budget.{session-found}

abbrev Open : Outside → String → ℕ → List ℕ → Files → UploadSession → Type 0
Open o principal id content s u =
    (ltb chunk_bytes (length content) ≡ false)
    × ((length content == 0) ≡ false)
    × (session id principal s ≡ ok u)
    × (is_none u.attachment_id ≡ true)
    × (o.is_live u.entity_id ≡ true)

may_append-Open :
    (o : Outside) (principal : String) (id : ℕ) (content : List ℕ) (now : ℕ) (s : Files)
    (u : UploadSession)
    → may_append o principal id content now s ≡ ok u
    → Open o principal id content s u
may_append-Open o principal id content now s u h =
    elim (Bool-cases (ltb chunk_bytes (length content))) [
      | inl big ↦ let no : ⊥ = ground arith in absurd no
      | inr small ↦ elim (Bool-cases (length content == 0)) [
        | inl empty ↦ let no : ⊥ = ground arith in absurd no
        | inr some_bytes ↦ elim (Result-cases (session id principal s)) [
          | inl (e, bad) ↦ let no : ⊥ = ground (arith, bad) in absurd no
          | inr (x, good) ↦ elim (Bool-cases (is_none x.attachment_id)) [
            | inr closed ↦ let no : ⊥ = ground (arith, good) in absurd no
            | inl unfinished ↦ elim (Bool-cases (leb x.expires_us now)) [
              | inl late ↦ let no : ⊥ = ground (arith, good) in absurd no
              | inr early ↦ elim (Bool-cases (o.is_live x.entity_id)) [
                | inr gone ↦ let no : ⊥ = ground (arith, good) in absurd no
                | inl live ↦
                    let same : x ≡ u = ground (arith, good) in
                    subst (Open o principal id content s) same
                      (small, some_bytes, good, unfinished, live)
              ]
            ]
          ]
        ]
      ]
    ]

Open-may_append :
    (o : Outside) (principal : String) (id : ℕ) (content : List ℕ) (now : ℕ) (s : Files)
    (u : UploadSession)
    → Open o principal id content s u
    → now < u.expires_us
    → may_append o principal id content now s ≡ ok u
Open-may_append o principal id content now s u (small, some_bytes, good, unfinished, live) early =
    ground (arith, small, some_bytes, good, unfinished, live)

abbrev advanced : UploadSession → List ℕ → UploadSession
advanced u content = record u {
  next_index = u.next_index + 1;
  received_bytes = u.received_bytes + length content;
}

added-session :
    (principal : String) (id index : ℕ) (content : List ℕ) (s : Files) (u : UploadSession)
    → session id principal s ≡ ok u
    → session id principal (add_chunk u index content s) ≡ ok (advanced u content)
unfolding session
added-session principal id index content s u h =
    let (found, own) = session-found id principal s u h in
    let there =
      first_where-update (λ (q : UploadSession). q.upload_id == id)
        (λ q. q.upload_id == u.upload_id)
        (λ q. record q {
          next_index = q.next_index + 1;
          received_bytes = u.received_bytes + length content;
        })
        s.uploads u (λ _. refl) found in
    let hit : (u.upload_id == u.upload_id) ≡ true = ground arith in
    ground (arith, rw hit at there, own)

replayed :
    (u : UploadSession) (index : ℕ) (content : List ℕ) (s : Files)
    → index ≡ u.next_index
    → is_replay (advanced u content) index content (add_chunk u index content s) ≡ true
replayed u index content s same = ground arith

-- A second call from the state that a first one left, with the first one's answer.
settle :
    (f : Files → Files × Result AttachmentError (ℕ × ℕ))
    (out : Files × Result AttachmentError (ℕ × ℕ)) (s' : Files) (a answer : ℕ × ℕ)
    → out ≡ (s', ok a)
    → out.1 ≡ ok answer
    → f s' ≡ (s', ok a)
    → f out.0 ≡ (out.0, ok answer)
settle f out s' a answer e h again =
    let same : a ≡ answer = ground (arith, e) in
    subst (λ q. f q ≡ (q, ok answer))
      (sym (ap (λ (q : Files × Result AttachmentError (ℕ × ℕ)). q.0) e))
      (subst (λ b. f s' ≡ (s', ok b)) same again)

-- If a chunk is accepted and sent again to the resulting state before the upload expires, the replay
-- changes nothing and gives the same answer.
pub append_chunk_replay :
    (o : Outside) (principal : String) (id index : ℕ) (content : List ℕ) (now later : ℕ) (s : Files)
    (u : UploadSession) (answer : ℕ × ℕ)
    → session id principal s ≡ ok u
    → (append_chunk o principal id index content now s).1 ≡ ok answer
    → later < u.expires_us
    → let s' = (append_chunk o principal id index content now s).0 in
      append_chunk o principal id index content later s' ≡ (s', ok answer)
unfolding append_chunk
append_chunk_replay o principal id index content now later s u answer h first early =
    elim (Result-cases (may_append o principal id content now s)) [
      | inl (e, bad) ↦ let no : ⊥ = ground (arith, bad) in absurd no
      | inr (x, good) ↦
          let (small, some_bytes, found, unfinished, live) =
            may_append-Open o principal id content now s x good in
          let same : x ≡ u = ground (arith, found) in
          let in_time : later < x.expires_us =
            subst (λ (q : UploadSession). later < q.expires_us) (sym same) early in
          elim (Bool-cases (is_replay x index content s)) [
            | inl again ↦
                let still : (t : ℕ)
                    → may_append o principal id content t s ≡ ok x
                    → append_chunk o principal id index content t s
                      ≡ (s, ok (x.next_index, x.received_bytes)) =
                  λ t may. rw (may, append_chunk, again) refl in
                settle (append_chunk o principal id index content later) _ s _ answer
                  (still now good) first
                  (still later (
                    Open-may_append o principal id content later s x
                      (small, some_bytes, found, unfinished, live) in_time))
            | inr fresh ↦ elim (Result-cases (takes x index content)) [
              | inl (e, bad) ↦ let no : ⊥ = ground (arith, good, bad) in absurd no
              | inr (_, taken) ↦
                  let next : index ≡ x.next_index = ground arith in
                  let s' = add_chunk x index content s in
                  let done : append_chunk o principal id index content now s
                      ≡ (s', ok (x.next_index + 1, x.received_bytes + length content)) =
                    rw (good, append_chunk, fresh, taken) refl in
                  let may =
                    Open-may_append o principal id content later s' (advanced x content)
                      (
                        small,
                        some_bytes,
                        added-session principal id index content s x found,
                        unfinished,
                        live,
                      )
                      in_time in
                  settle (append_chunk o principal id index content later) _ s' _ answer done first
                    (rw (may, append_chunk, replayed x index content s next) refl)
            ]
          ]
    ]
