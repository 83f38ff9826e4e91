-- ===== src/Index/Commit/Barrier.antt =====
-- crates/mcpmem-core/src/jobs.rs: what a commit and a new revision shut out.
use mcpmem.Prelude.{
  ℕ, ◌≡◌, ◌≢◌, refl, sym, subst, ◌∙◌, Bool, true, false, String, Option, List, arith, ℕ_discrete,
  ok, ◌==◌, nat_eq, first_where, exists_where, All, All-of, All-map, first_where-test,
  first_where-All, Option-cases, count_where-All, update_where-none, inl, inr,
}
use mcpmem.Events.Records.{token_eq}
use mcpmem.Index.Records.{
  Index, Sources, IndexJob, JobRow, leased, job_state_eq, OwnerKind, owner_kind_eq, AnnGeneration,
  IndexOperation,
}
use mcpmem.Index.{
  is_job, enqueue_for, enqueue_chunk_change, serving_profile_ids, holds, retry, retry_row,
}
use mcpmem.Index.Requeue.{new_state, enqueue_for-All, served_job}
use mcpmem.Index.Profiles.{Arithmetic, activate}
use mcpmem.Index.Profiles.Activation.{activate_sound}
use mcpmem.Index.Commit.{commit_chunks, under_lease, is_current}
use mcpmem.Index.Commit.Unscanned.{
  AvoidsScan, IsUnscanned, Unscanned, advance_own-Unscanned, run-Unscanned,
}
use mcpmem.Index.Trace
use mcpmem.Index.Commit.Fence.{Chunks, commit_chunks-replace}

-- A commit of an index profile keeps it from being activated until its vectors are scanned again:
-- after any operations on the index and changes to its sources that do not include a full scan of the
-- profile, an activation is refused.
pub commit_blocks_activation :
    (a : Arithmetic) (job : IndexJob) (now : ℕ) (chunks : Option Chunks) (source : String)
    (src : Sources) (x : Index) (ops : List Trace.Op)
    → (commit_chunks a job now chunks source src x).1 ≡ ok true
    → All (AvoidsScan job.profile_id) ops
    → let w = Trace.run a ops ((commit_chunks a job now chunks source src x).0, src) in
      (activate job.profile_id w.1 w.0).1 ≢ ok tt
commit_blocks_activation a job now chunks source src x ops h avoids active =
    let (rows, _, _, _, done) = commit_chunks-replace a job now chunks source src x h in
    let x' = (commit_chunks a job now chunks source src x).0 in
    let w = Trace.run a ops (x', src) in
    let (g, is_g, scanned, _) = (activate_sound job.profile_id w.1 w.0 active).0.generation in
    let left : Unscanned job.profile_id x' =
      subst (Unscanned job.profile_id) done (advance_own-Unscanned job.profile_id x.generations) in
    let later : Unscanned job.profile_id w.0 =
      run-Unscanned job.profile_id a ops x' src avoids left in
    let own =
      first_where-test (λ (g : AnnGeneration). g.profile_id == job.profile_id) w.0.generations
        is_g in
    let unscanned =
      first_where-All (IsUnscanned job.profile_id) (λ g. g.profile_id == job.profile_id)
        w.0.generations later is_g (ground (arith, own)) in
    ground (arith, scanned, unscanned)

new_state_unleased : (profile : ℕ) → new_state profile ≢ leased
new_state_unleased profile e = ground (arith, e)

-- The rows of the owner in the profile are not leased.
abbrev Unleased : ℕ → OwnerKind → ℕ → JobRow → Type 0
Unleased profile kind id j = is_job profile kind id j ≡ true → j.state ≢ leased

enqueue_for-Unleased :
    (profiles : List ℕ) (profile : ℕ) (kind : OwnerKind) (id revision : ℕ)
    (operation : IndexOperation) (x : Index)
    → exists_where (λ p. p == profile) profiles ≡ true
    → All (Unleased profile kind id) (enqueue_for profiles kind id revision operation x).jobs
enqueue_for-Unleased profiles profile kind id revision operation x served =
    enqueue_for-All (Unleased profile kind id) kind id revision operation
      (λ p j queued _ e. new_state_unleased p (sym queued.waits ∙ e)) profiles x
      (All-of _ x.jobs (λ j free hit.
        let found = served_job profile kind id profiles j served hit in
        let no : ⊥ = ground (arith, found, free) in absurd no))

Unleased-under_lease :
    (job : IndexJob) (now : ℕ) (x : Index)
    → All (Unleased job.profile_id job.owner_kind job.owner_id) x.jobs
    → under_lease job now x ≡ false
Unleased-under_lease job now x a =
    elim (Option-cases (first_where (is_job job.profile_id job.owner_kind job.owner_id) x.jobs)) [
      | inl missing ↦ rw (under_lease, missing) refl
      | inr (j, found) ↦
          let hit =
            first_where-test (is_job job.profile_id job.owner_kind job.owner_id) x.jobs found in
          let idle =
            first_where-All (Unleased job.profile_id job.owner_kind job.owner_id)
              (is_job job.profile_id job.owner_kind job.owner_id) x.jobs a found hit in
          rw (under_lease, found) (unleased-stale j idle)
    ]
  where
    unleased-stale : (j : JobRow) → j.state ≢ leased → is_current job now j ≡ false
    unleased-stale j idle = ground (arith, idle)

Unleased-retry :
    (job : IndexJob) (now next_attempt_us : ℕ) (error : String) (is_dead : Bool) (x : Index)
    → All (Unleased job.profile_id job.owner_kind job.owner_id) x.jobs
    → retry job now next_attempt_us error is_dead x ≡ (x, false)
unfolding retry ℕ_discrete
Unleased-retry job now next_attempt_us error is_dead x a =
    let free = All-map _ (λ j. holds job now j ≡ false) x.jobs (λ j idle. ground (arith, idle)) a in
    rw
      (
        count_where-All (holds job now) x.jobs free,
        update_where-none (holds job now) (retry_row next_attempt_us error is_dead) x.jobs free,
      )
      refl

under_lease_lost-commit_chunks :
    (a : Arithmetic) (job : IndexJob) (now : ℕ) (chunks : Option Chunks) (source : String)
    (src : Sources) (x : Index)
    → under_lease job now x ≡ false
    → commit_chunks a job now chunks source src x ≡ (x, ok false)
unfolding commit_chunks
under_lease_lost-commit_chunks a job now chunks source src x lost = rw lost refl

-- A new revision of an owner takes the lease away from whoever embeds an older one: in the profiles
-- that the store serves or rebuilds, a commit and a retry under a job of that owner are refused, and
-- leave everything as it was.
pub enqueue_supersedes :
    (a : Arithmetic) (job : IndexJob) (now next_attempt_us revision : ℕ) (deleted : Bool)
    (chunks : Option Chunks) (source error : String) (is_dead : Bool) (src : Sources) (x : Index)
    → exists_where (λ p. p == job.profile_id) (serving_profile_ids x.registry) ≡ true
    → let x' = enqueue_chunk_change job.owner_kind job.owner_id revision deleted x in
      (commit_chunks a job now chunks source src x' ≡ (x', ok false))
      × (retry job now next_attempt_us error is_dead x' ≡ (x', false))
unfolding enqueue_chunk_change
enqueue_supersedes a job now next_attempt_us revision deleted chunks source error is_dead src x
      serves =
    let x' = enqueue_chunk_change job.owner_kind job.owner_id revision deleted x in
    let free : All (Unleased job.profile_id job.owner_kind job.owner_id) x'.jobs =
      enqueue_for-Unleased (serving_profile_ids x.registry) job.profile_id job.owner_kind
        job.owner_id revision _ x serves in
    (
      under_lease_lost-commit_chunks a job now chunks source src x'
          (Unleased-under_lease job now x' free),
      Unleased-retry job now next_attempt_us error is_dead x' free,
    )
