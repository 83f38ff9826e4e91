-- ===== src/Index/Requeue.antt =====
-- crates/mcpmem-core/src/jobs.rs: the rows that enqueue_chunk_change leaves.
use mcpmem.Prelude.{
  ℕ, ◌≡◌, refl, Bool, true, false, List, [], ◌∷◌, arith, Bool-cases, inl, inr, ◌==◌, nat_eq,
  exists_where, All, All-map, All-zip, All-update, exists_where-none, if◌then◌else◌, if_case,
}
use mcpmem.Index.Records.{
  Index, JobRow, JobState, pending, held, OwnerKind, owner_kind_eq, IndexOperation,
}
use mcpmem.Index.{is_job, put_job, requeued, fresh_job, enqueue_for, unscan, nil}

abbrev pub new_state : ℕ → JobState
new_state profile = if profile == nil then held else pending

-- The row is the one that a change of the owner leaves in a profile.
pub record Queued (p : ℕ) (kind : OwnerKind) (id revision : ℕ) (j : JobRow) : Type 0 where
  pub owner : is_job p kind id j ≡ true
  pub at : j.owner_revision ≡ revision
  pub waits : j.state ≡ new_state p

own_job :
    (p : ℕ) (kind : OwnerKind) (id revision : ℕ) (operation : IndexOperation)
    → is_job p kind id (fresh_job p kind id revision operation (new_state p)) ≡ true
own_job p kind id revision operation = ground arith

put_job-All :
    (P : JobRow → Type 0) (p : ℕ) (kind : OwnerKind) (id revision : ℕ) (operation : IndexOperation)
    (jobs : List JobRow)
    → ((j : JobRow) → Queued p kind id revision j → P j)
    → All (λ j. is_job p kind id j ≡ false → P j) jobs
    → All P (put_job p kind id revision operation jobs)
put_job-All P p kind id revision operation jobs queued a =
    if_case (λ q. All P q) (exists_where (is_job p kind id) jobs)
      (λ _.
        All-update (λ j. is_job p kind id j ≡ false → P j) P (is_job p kind id)
          (requeued revision operation (new_state p)) jobs
          (λ j _ hit. queued _ (record { owner = hit; at = refl; waits = refl }))
          (λ j kept miss. kept miss) a)
      (λ none_there. (
        queued _ (record { owner = own_job p kind id revision operation; at = refl; waits = refl }),
        untouched none_there,
      ))
  where
    untouched : exists_where (is_job p kind id) jobs ≡ false → All P jobs
    untouched h =
        All-map _ _ jobs (λ j both. both.1 both.0)
          (All-zip _ _ jobs (exists_where-none (is_job p kind id) jobs h) a)

-- What holds of the rows that a change of the owner leaves, and held of those that it does not touch,
-- holds of all.
pub enqueue_for-All :
    (P : JobRow → Type 0) (kind : OwnerKind) (id revision : ℕ) (operation : IndexOperation)
    → ((p : ℕ) (j : JobRow) → Queued p kind id revision j → P j)
    → (profiles : List ℕ) (x : Index)
    → All (λ j. exists_where (λ p. is_job p kind id j) profiles ≡ false → P j) x.jobs
    → All P (enqueue_for profiles kind id revision operation x).jobs
unfolding enqueue_for
enqueue_for-All P kind id revision operation queued [] x a = All-map _ _ x.jobs (λ j h. h refl) a
enqueue_for-All P kind id revision operation queued (p ∷ profiles) x a =
    enqueue_for-All P kind id revision operation queued profiles
      (record x {
        jobs = put_job p kind id revision operation x.jobs;
        generations = unscan p x.generations;
      })
      (put_job-All (λ j. exists_where (λ p. is_job p kind id j) profiles ≡ false → P j) p kind id
        revision operation x.jobs (λ j q _. queued p j q)
        (All-map _ _ x.jobs (λ j h miss others. h (rw miss others)) a))

pub served_job :
    (profile : ℕ) (kind : OwnerKind) (id : ℕ) (profiles : List ℕ) (j : JobRow)
    → exists_where (λ p. p == profile) profiles ≡ true
    → is_job profile kind id j ≡ true
    → exists_where (λ p. is_job p kind id j) profiles ≡ true
served_job profile kind id [] j h hit = h
served_job profile kind id (p ∷ profiles) j h hit = elim (Bool-cases (p == profile)) [
  | inl same ↦ let here : is_job p kind id j ≡ true = ground (arith, same, hit) in rw here refl
  | inr other ↦
      let below = served_job profile kind id profiles j (rw other at h) hit in
      if_case (λ (q : Bool). q ≡ true) (is_job p kind id j) (λ _. refl) (λ _. below)
]
