-- ===== src/Index/Commit/Unscanned.antt =====
-- crates/mcpmem-core/src/jobs.rs: the vectors of a profile that changed, and were not scanned since.
use mcpmem.Prelude.{
  ℕ, ◌+◌, ◌≡◌, ◌≢◌, refl, ◌&&◌, ◌||◌, Bool, String, Option, none, some, List, [], ◌∷◌, arith, inl,
  inr, Result, Result-cases, Option-cases, ◌==◌, nat_eq, ltb, if_case, if◌then◌else◌, All, All-of,
  All-update, earliest, count_where, ◌>>◌, refuse_if, not,
}
use mcpmem.Events.Records.{CoreError, invalid_params, token_eq}
use mcpmem.Events.{lease_until}
use mcpmem.Index.Records.{
  Index, Sources, IndexJob, IndexProfile, OwnerKind, attachment, owner_kind_eq, registry_state_eq,
  IndexOperation, AnnGeneration, upsert, delete,
}
use mcpmem.Index.{
  before, is_due, claim_due, renew, retry, holds, enqueue_for, enqueue_chunk_change, put_job,
  unscan, advance, serving_profile_ids, is_vector_of, is_rebuilding,
}
use mcpmem.Index.Scan.{verify_full_scan, verify_vectors_current, mark_published}
use mcpmem.Index.Profiles.{
  Arithmetic, may_rebuild, begin_rebuild, fail_rebuild, activate, may_activate,
}
use mcpmem.Index.Commit.{
  commit_chunks, under_lease, is_live_revision, payload_fits, lacks_chunks, bad_attachment,
  new_vectors,
}
use mcpmem.Index.Commit.Fence.{Chunks}
use mcpmem.Index.Trace.{Op, step, run}
use mcpmem.Index.Trace

-- A generation of the profile has no verified scan.
abbrev pub IsUnscanned : ℕ → AnnGeneration → Type 0
IsUnscanned profile g = g.profile_id ≡ profile → g.full_scan_generation ≡ none

abbrev pub Unscanned : ℕ → Index → Type 0
Unscanned profile x = All (IsUnscanned profile) x.generations

-- The operation does not scan the profile.
abbrev pub AvoidsScan : ℕ → Op → Type 0
AvoidsScan profile (Trace.scans p) = p ≢ profile
AvoidsScan profile (Trace.activates _) = Unit
AvoidsScan profile _ = Unit

module _ (profile : ℕ) where
  unscan-Unscanned :
      (p : ℕ) (gs : List AnnGeneration)
      → All (IsUnscanned profile) gs
      → All (IsUnscanned profile) (unscan p gs)
  unscan-Unscanned p gs a =
      All-update (IsUnscanned profile) (IsUnscanned profile) (λ g. g.profile_id == p)
        (λ g. record g { full_scan_generation = none }) gs (λ g _ _ _. refl) (λ g u _. u) a

  pub advance-Unscanned :
      (p : ℕ) (gs : List AnnGeneration)
      → All (IsUnscanned profile) gs
      → All (IsUnscanned profile) (advance p gs)
  advance-Unscanned p gs a =
      All-update (IsUnscanned profile) (IsUnscanned profile) (λ g. g.profile_id == p)
        (λ g. record g {
          durable_generation = g.durable_generation + 1;
          full_scan_generation = none;
        })
        gs (λ g _ _ _. refl) (λ g u _. u) a

  -- The profile's own generation has no verified scan once it advances.
  pub advance_own-Unscanned :
      (gs : List AnnGeneration) → All (IsUnscanned profile) (advance profile gs)
  advance_own-Unscanned gs =
      All-update (λ _. Unit {0}) (IsUnscanned profile) (λ g. g.profile_id == profile)
        (λ g. record g {
          durable_generation = g.durable_generation + 1;
          full_scan_generation = none;
        })
        gs (λ g _ _ _. refl) (λ g _ miss same. ground arith) (All-of _ gs (λ _. tt))

  enqueue_for-Unscanned :
      (ps : List ℕ) (kind : OwnerKind) (id revision : ℕ) (operation : IndexOperation) (x : Index)
      → Unscanned profile x
      → Unscanned profile (enqueue_for ps kind id revision operation x)
  unfolding enqueue_for
  enqueue_for-Unscanned [] kind id revision operation x a = a
  enqueue_for-Unscanned (p ∷ ps) kind id revision operation x a =
      enqueue_for-Unscanned ps kind id revision operation
        (record x {
          jobs = put_job p kind id revision operation x.jobs;
          generations = unscan p x.generations;
        })
        (unscan-Unscanned p x.generations a)

  claim_due-Unscanned :
      (token now duration : ℕ) (x : Index)
      → Unscanned profile x
      → Unscanned profile (claim_due token now duration x).0
  unfolding claim_due
  claim_due-Unscanned token now duration x a = elim (Result-cases (lease_until now duration)) [
    | inl (e, bad) ↦ rw (bad, claim_due) a
    | inr (until, good) ↦ elim (Option-cases (earliest before (is_due x.registry now) x.jobs)) [
      | inl idle ↦ rw (good, claim_due, idle) a
      | inr (j, found) ↦ rw (good, claim_due, found) a
    ]
  ]

  renew-Unscanned :
      (job : IndexJob) (now duration : ℕ) (x : Index)
      → Unscanned profile x
      → Unscanned profile (renew job now duration x).0
  unfolding renew
  renew-Unscanned job now duration x a = elim (Result-cases (lease_until now duration)) [
    | inl (e, bad) ↦ rw (bad, renew) a
    | inr (until, good) ↦ rw (good, renew) a
  ]

  retry-Unscanned :
      (job : IndexJob) (now next : ℕ) (error : String) (is_dead : Bool) (x : Index)
      → Unscanned profile x
      → Unscanned profile (retry job now next error is_dead x).0
  unfolding retry
  retry-Unscanned job now next error is_dead x a =
      if_case (λ (q : Index). Unscanned profile q)
        (count_where (holds job now) x.jobs == 1 && is_dead)
        (λ _.
          if_case (λ (q : List AnnGeneration). All (IsUnscanned profile) q)
            (ltb 0 (count_where (is_vector_of job.profile_id job.owner_kind job.owner_id) x.vectors)
              && job.owner_kind == attachment)
            (λ _. advance-Unscanned job.profile_id x.generations a) (λ _. a))
        (λ _. a)

  begin_rebuild-Unscanned :
      (a : Arithmetic) (p : IndexProfile) (x : Index) (src : Sources)
      → Unscanned profile x
      → Unscanned profile (begin_rebuild a p x src).0.0
  unfolding begin_rebuild
  begin_rebuild-Unscanned a p x src u = elim (Result-cases (may_rebuild a p x)) [
    | inl (e, bad) ↦ rw (bad, begin_rebuild) u
    | inr (fp, good) ↦ rw (good, begin_rebuild) ((λ _. refl), u)
  ]

  activate-Unscanned :
      (candidate : ℕ) (src : Sources) (x : Index)
      → Unscanned profile x
      → Unscanned profile (activate candidate src x).0
  unfolding activate
  activate-Unscanned candidate src x u = elim (Result-cases (may_activate candidate src x)) [
    | inl (e, bad) ↦ rw (bad, activate) u
    | inr (_, good) ↦ rw (good, activate) u
  ]

  fail_rebuild-Unscanned :
      (candidate : ℕ) (reason : String) (x : Index)
      → Unscanned profile x
      → Unscanned profile (fail_rebuild candidate reason x).0
  unfolding fail_rebuild
  fail_rebuild-Unscanned candidate reason x u =
      if_case (λ (q : Index × Result CoreError (Unit {0})). Unscanned profile q.0)
        (is_rebuilding x.registry && x.registry.candidate == some candidate) (λ _. u) (λ _. u)

  -- A successful commit writes the generations that it advanced, and a refused one nothing.
  commit_chunks-Unscanned :
      (a : Arithmetic) (job : IndexJob) (now : ℕ) (chunks : Option Chunks) (source : String)
      (src : Sources) (x : Index)
      → Unscanned profile x
      → Unscanned profile (commit_chunks a job now chunks source src x).0
  unfolding commit_chunks
  commit_chunks-Unscanned a job now chunks source src x u =
      if_case (λ (q : Index × Result CoreError Bool). Unscanned profile q.0)
        (not (under_lease job now x) || not (is_live_revision job src)) (λ _. u)
        λ _.
          if_case (λ (q : Index × Result CoreError Bool). Unscanned profile q.0)
            (not (payload_fits job.operation chunks)) (λ _. u)
            λ _.
              if_case (λ (q : Index × Result CoreError Bool). Unscanned profile q.0)
                (lacks_chunks job chunks) (λ _. u)
                λ _.
                  elim (Result-cases (
                    refuse_if (bad_attachment job chunks src) invalid_params
                    >> new_vectors a job now chunks source src x)) [
                      | inl (e, bad) ↦ rw bad u
                      | inr (rows, good) ↦
                          rw good (advance-Unscanned job.profile_id x.generations u)
                    ]

  verify_full_scan-Unscanned :
      (p : ℕ) (src : Sources) (x : Index)
      → p ≢ profile
      → Unscanned profile x
      → Unscanned profile (verify_full_scan p src x).0
  unfolding verify_full_scan
  verify_full_scan-Unscanned p src x other u =
      elim (Result-cases (
        verify_vectors_current p src x
        >> refuse_if (not (count_where (λ g. g.profile_id == p) x.generations == 1))
            invalid_params)) [
              | inl (e, bad) ↦ rw (bad, verify_full_scan) u
              | inr (_, good) ↦
                  rw (good, verify_full_scan)
                    (All-update (IsUnscanned profile) (IsUnscanned profile) (λ g. g.profile_id == p)
                      (λ g. record g { full_scan_generation = some g.durable_generation })
                      x.generations (λ g _ hit same. ground (arith, other)) (λ g v _. v) u)
            ]

  mark_published-Unscanned :
      (p generation : ℕ) (x : Index)
      → Unscanned profile x
      → Unscanned profile (mark_published p generation x).0
  unfolding mark_published
  mark_published-Unscanned p generation x u =
      All-update (IsUnscanned profile) (IsUnscanned profile)
        (λ g. g.profile_id == p && g.durable_generation == generation)
        (λ g. record g { published_generation = some generation }) x.generations (λ g v _. v)
        (λ g v _. v) u

  step-Unscanned :
      (a : Arithmetic) (op : Op) (x : Index) (src : Sources)
      → AvoidsScan profile op
      → Unscanned profile x
      → Unscanned profile (step a op (x, src)).0
  unfolding step enqueue_chunk_change
  step-Unscanned a (Trace.enqueues kind id revision deleted) x src h u =
      enqueue_for-Unscanned (serving_profile_ids x.registry) kind id revision
        (if deleted then delete else upsert) x u
  step-Unscanned a (Trace.claims token now duration) x src h u =
      claim_due-Unscanned token now duration x u
  step-Unscanned a (Trace.renews job now duration) x src h u = renew-Unscanned job now duration x u
  step-Unscanned a (Trace.retries job now next error is_dead) x src h u =
      retry-Unscanned job now next error is_dead x u
  step-Unscanned a (Trace.commits job now chunks source) x src h u =
      commit_chunks-Unscanned a job now chunks source src x u
  step-Unscanned a (Trace.rebuilds p) x src h u = begin_rebuild-Unscanned a p x src u
  step-Unscanned a (Trace.fails candidate reason) x src h u =
      fail_rebuild-Unscanned candidate reason x u
  step-Unscanned a (Trace.activates candidate) x src h u = activate-Unscanned candidate src x u
  step-Unscanned a (Trace.scans p) x src h u = verify_full_scan-Unscanned p src x h u
  step-Unscanned a (Trace.publishes p generation) x src h u =
      mark_published-Unscanned p generation x u
  step-Unscanned a (Trace.edits src') x src h u = u

  pub run-Unscanned :
      (a : Arithmetic) (ops : List Op) (x : Index) (src : Sources)
      → All (AvoidsScan profile) ops
      → Unscanned profile x
      → Unscanned profile (run a ops (x, src)).0
  unfolding run
  run-Unscanned a [] x src h u = u
  run-Unscanned a (op ∷ ops) x src (p, ps) u =
      let w = step a op (x, src) in run-Unscanned a ops w.0 w.1 ps (step-Unscanned a op x src p u)
