-- ===== src/Index/Profiles/Untouched.antt =====
-- crates/mcpmem-core/src/jobs.rs: the operations that leave the registry alone.
use mcpmem.Prelude.{
  ℕ, ◌≡◌, refl, Bool, ◌&&◌, ◌||◌, not, String, Option, List, [], ◌∷◌, inl, inr, Option-cases,
  Result, Result-cases, ◌>>◌, refuse_if, ◌==◌, nat_eq, if_case, earliest, count_where,
}
use mcpmem.Events.Records.{CoreError, invalid_params, token_eq}
use mcpmem.Events.{lease_until}
use mcpmem.Index.Records.{
  Index, Sources, IndexJob, registry_state_eq, OwnerKind, ChunkKind, IndexOperation,
}
use mcpmem.Index.{before, is_due, claim_due, renew, retry, holds, enqueue_for, put_job, unscan}
use mcpmem.Index.Scan.{verify_full_scan, verify_vectors_current}
use mcpmem.Index.Profiles.{Arithmetic}
use mcpmem.Index.Commit.{
  commit_chunks, new_vectors, bad_attachment, under_lease, is_live_revision, payload_fits,
  lacks_chunks,
}

-- The operations on jobs, vectors and generations leave the registry alone.
pub enqueue_for-registry :
    (ps : List ℕ) (kind : OwnerKind) (id revision : ℕ) (operation : IndexOperation) (x : Index)
    → (enqueue_for ps kind id revision operation x).registry ≡ x.registry
unfolding enqueue_for
enqueue_for-registry [] kind id revision operation x = refl
enqueue_for-registry (p ∷ ps) kind id revision operation x =
    enqueue_for-registry ps kind id revision operation (record x {
      jobs = put_job p kind id revision operation x.jobs;
      generations = unscan p x.generations;
    })

pub claim_due-registry :
    (token now duration : ℕ) (x : Index) → (claim_due token now duration x).0.registry ≡ x.registry
unfolding claim_due
claim_due-registry token now duration x = elim (Result-cases (lease_until now duration)) [
  | inl (e, bad) ↦ rw (bad, claim_due) refl
  | inr (until, good) ↦ elim (Option-cases (earliest before (is_due x.registry now) x.jobs)) [
    | inl idle ↦ rw (good, claim_due, idle) refl
    | inr (j, found) ↦ rw (good, claim_due, found) refl
  ]
]

pub renew-registry :
    (job : IndexJob) (now duration : ℕ) (x : Index)
    → (renew job now duration x).0.registry ≡ x.registry
unfolding renew
renew-registry job now duration x = elim (Result-cases (lease_until now duration)) [
  | inl (e, bad) ↦ rw (bad, renew) refl
  | inr (until, good) ↦ rw (good, renew) refl
]

pub retry-registry :
    (job : IndexJob) (now next : ℕ) (error : String) (is_dead : Bool) (x : Index)
    → (retry job now next error is_dead x).0.registry ≡ x.registry
unfolding retry
retry-registry job now next error is_dead x =
    if_case (λ (q : Index). q.registry ≡ x.registry)
      (count_where (holds job now) x.jobs == 1 && is_dead) (λ _. refl) (λ _. refl)

pub commit_chunks-registry :
    (a : Arithmetic) (job : IndexJob) (now : ℕ) (chunks : Option (List (ChunkKind × List ℕ)))
    (source : String) (src : Sources) (x : Index)
    → (commit_chunks a job now chunks source src x).0.registry ≡ x.registry
unfolding commit_chunks
commit_chunks-registry a job now chunks source src x =
    if_case (λ (q : Index × Result CoreError Bool). q.0.registry ≡ x.registry)
      (not (under_lease job now x) || not (is_live_revision job src)) (λ _. refl)
      λ _.
        if_case (λ (q : Index × Result CoreError Bool). q.0.registry ≡ x.registry)
          (not (payload_fits job.operation chunks)) (λ _. refl)
          λ _.
            if_case (λ (q : Index × Result CoreError Bool). q.0.registry ≡ x.registry)
              (lacks_chunks job chunks) (λ _. refl)
              λ _.
                elim (Result-cases (
                  refuse_if (bad_attachment job chunks src) invalid_params
                  >> new_vectors a job now chunks source src x)) [
                    | inl (e, bad) ↦ rw bad refl
                    | inr (rows, good) ↦ rw good refl
                  ]

pub verify_full_scan-registry :
    (profile : ℕ) (src : Sources) (x : Index)
    → (verify_full_scan profile src x).0.registry ≡ x.registry
unfolding verify_full_scan
verify_full_scan-registry profile src x =
    elim (Result-cases (
      verify_vectors_current profile src x
      >> refuse_if (not (count_where (λ g. g.profile_id == profile) x.generations == 1))
          invalid_params)) [
            | inl (e, bad) ↦ rw (bad, verify_full_scan) refl
            | inr (_, good) ↦ rw (good, verify_full_scan) refl
          ]
