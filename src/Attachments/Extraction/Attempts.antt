-- ===== src/Attachments/Extraction/Attempts.antt =====
-- crates/mcpmem-core/src/attachments.rs: how often an attachment is given to an extractor.
use mcpmem.Prelude.{
  ℕ, ◌+◌, ◌-◌, ◌≤◌, max, ◌≡◌, refl, subst, Bool, String, none, some, List, [], ◌∷◌, arith, inl, inr,
  Bool-cases, Option-cases, ok, err, Result-cases, ◌==◌, nat_eq, update_where, count_where,
  earliest, earliest-test, earliest-All, first_where, if◌then◌else◌, if_case, All,
}
use mcpmem.Events.{lease_until}
use mcpmem.Attachments.Records.{ExtractionJob, Files, Outside}
use mcpmem.Attachments.Extraction.{
  AttachmentJob, claim_due, renew, complete, retry, end_spent, lease_due, is_due, is_spent,
  is_stage, before, lease_row, fenced, is_refused, max_attempts,
}
use mcpmem.Index.Records.{Index}

-- The calls of the extractors; Uuid and clock are the caller's.
pub data Op : Type 0 where
  claims : ℕ → ℕ → ℕ → Op
  renews : AttachmentJob → ℕ → ℕ → Op
  completes : AttachmentJob → ℕ → List (ℕ × String) → Op
  retries : AttachmentJob → ℕ → ℕ → String → String → Bool → Op

-- The state after the calls, and the jobs that they gave, the last first.
abbrev pub step :
    Outside → Op → (Files × Index) × List AttachmentJob → (Files × Index) × List AttachmentJob
step o (claims token now duration_us) ((s, x), jobs) =
    let (s', r) = claim_due o token now duration_us s in
    ((s', x), elim r [ err e ↦ jobs | ok none ↦ jobs | ok (some job) ↦ job ∷ jobs ])
step o (renews job now duration_us) ((s, x), jobs) = (((renew o job now duration_us s).0, x), jobs)
step o (completes job now pages) ((s, x), jobs) = ((complete o job now pages s x).0, jobs)
step o (retries job now next_attempt_us stage reason is_dead) ((s, x), jobs) =
    (((retry o job now next_attempt_us stage reason is_dead s).0, x), jobs)

-- What the queue reads of the graph may differ from call to call.
unfoldable pub run :
    List (Outside × Op)
    → (Files × Index) × List AttachmentJob
    → (Files × Index) × List AttachmentJob
run [] st = st
run ((o, op) ∷ ops) st = run ops (step o op st)

abbrev pub is_for : ℕ → AttachmentJob → Bool
is_for id job = job.attachment_id == id

-- What is left of the eight attempts of an attachment.
abbrev left_of : ℕ → ExtractionJob → ℕ
left_of id j = if j.attachment_id == id then max_attempts - j.attempts else 0

abbrev left : ℕ → List ExtractionJob → ℕ
left id [] = 0
left id (j ∷ jobs) = max (left_of id j) (left id jobs)

left-bound : (id : ℕ) (jobs : List ExtractionJob) → left id jobs ≤ 8
left-bound id [] = omega arith
left-bound id (j ∷ jobs) = ground (arith, left-bound id jobs)

left-update :
    (id : ℕ) (test : ExtractionJob → Bool) (set : ExtractionJob → ExtractionJob)
    (jobs : List ExtractionJob)
    → ((j : ExtractionJob) → left_of id (set j) ≡ left_of id j)
    → left id (update_where test set jobs) ≡ left id jobs
left-update id test set [] same = refl
left-update id test set (j ∷ jobs) same =
    if_case (λ q. max (left_of id q) (left id (update_where test set jobs)) ≡ left id (j ∷ jobs))
      (test j) (λ _. rw (same j, left-update id test set jobs same) refl)
      (λ _. rw (left-update id test set jobs same) refl)

left-other :
    (id other token until : ℕ) (jobs : List ExtractionJob)
    → left id (update_where (λ r. r.attachment_id == other) (lease_row token until) jobs)
      ≤ left id jobs
left-other id other token until [] = omega arith
left-other id other token until (j ∷ jobs) = ground (arith, left-other id other token until jobs)

left-spent :
    (id token until : ℕ) (jobs : List ExtractionJob)
    → left id (update_where (λ r. r.attachment_id == id) (lease_row token until) jobs)
      ≤ left id jobs - 1
left-spent id token until [] = omega arith
left-spent id token until (j ∷ jobs) = ground (arith, left-spent id token until jobs)

left-All :
    (id : ℕ) (jobs : List ExtractionJob) (most : ℕ)
    → left id jobs ≤ most
    → All (λ j. left_of id j ≤ most) jobs
left-All id [] most h = tt
left-All id (j ∷ jobs) most h = (omega arith, left-All id jobs most (omega arith))

-- A job that is due has an attempt left.
due-left :
    (o : Outside) (now : ℕ) (s : Files) (j : ExtractionJob)
    → earliest before (is_due o now s.attachments) s.jobs ≡ some j
    → 1 ≤ left j.attachment_id s.jobs
due-left o now s j h =
    let due = earliest-test before (is_due o now s.attachments) s.jobs j h in
    let bounded : left_of j.attachment_id j ≤ left j.attachment_id s.jobs =
      earliest-All before (λ r. left_of j.attachment_id r ≤ left j.attachment_id s.jobs)
        (is_due o now s.attachments) s.jobs j
        (left-All j.attachment_id s.jobs (left j.attachment_id s.jobs) (omega arith)) h in
    let attempted : j.attempts + 1 ≤ 8 = ground (arith, due) in ground (arith, bounded)

-- The claims of the attachment and what is left of its attempts.
abbrev used : ℕ → (Files × Index) × List AttachmentJob → ℕ
used id ((s, x), jobs) = count_where (is_for id) jobs + left id s.jobs

lease_due-left :
    (o : Outside) (token now until id : ℕ) (s : Files) (jobs : List AttachmentJob)
    → let (s', job) = lease_due o token now until s in
      count_where (is_for id) (elim job [ none ↦ jobs | some j ↦ j ∷ jobs ]) + left id s'.jobs
      ≤ count_where (is_for id) jobs + left id s.jobs
lease_due-left o token now until id s jobs =
    elim (Option-cases (earliest before (is_due o now s.attachments) s.jobs)) [
      | inl idle ↦ rw (lease_due, idle) (omega arith)
      | inr (j, found) ↦
          elim (Option-cases (first_where (λ a. a.id == j.attachment_id) s.attachments)) [
            | inl missing ↦ rw (lease_due, found, missing) (omega arith)
            | inr (a, is_a) ↦
                rw (lease_due, found, is_a)
                  (elim (Bool-cases (j.attachment_id == id)) [
                    | inl mine ↦
                        let same : j.attachment_id ≡ id = ground (arith, mine) in
                        let some_left =
                          subst (λ i. 1 ≤ left i s.jobs) same (due-left o now s j found) in
                        let spent =
                          subst
                            (λ i.
                              left i (
                                update_where (λ r. r.attachment_id == j.attachment_id)
                                  (lease_row token until) s.jobs)
                              ≤ left i s.jobs - 1)
                            same (left-spent j.attachment_id token until s.jobs) in
                        rw mine (omega arith)
                    | inr other ↦
                        let kept = left-other id j.attachment_id token until s.jobs in
                        rw other (omega arith)
                  ])
          ]
    ]

bound_same : {a c d : ℕ} (b : ℕ) → a ≤ b + c → c ≡ d → a ≤ b + d
bound_same b h e = omega arith

claim_due-used :
    (o : Outside) (token now duration_us id : ℕ) (s : Files) (x : Index) (jobs : List AttachmentJob)
    → used id (step o (claims token now duration_us) ((s, x), jobs)) ≤ used id ((s, x), jobs)
unfolding claim_due
claim_due-used o token now duration_us id s x jobs =
    elim (Result-cases (lease_until now duration_us)) [
      | inl (e, bad) ↦ rw (step, claim_due, bad) (omega arith)
      | inr (until, good) ↦
          let leased_one = lease_due-left o token now until id (end_spent now s) jobs in
          let ended : left id (end_spent now s).jobs ≡ left id s.jobs =
            left-update id (is_spent now) _ s.jobs (λ j. refl) in
          rw (step, claim_due, good) (bound_same (count_where (is_for id) jobs) leased_one ended)
    ]

renew-used :
    (o : Outside) (job : AttachmentJob) (now duration_us id : ℕ) (s : Files)
    → left id (renew o job now duration_us s).0.jobs ≡ left id s.jobs
unfolding renew
renew-used o job now duration_us id s = elim (Result-cases (lease_until now duration_us)) [
  | inl (e, bad) ↦ rw (renew, bad) refl
  | inr (until, good) ↦ elim (Bool-cases (fenced o job now s)) [
    | inl holds ↦ rw (renew, good, holds) (left-update id _ _ s.jobs (λ j. refl))
    | inr lost ↦ rw (renew, good, lost) refl
  ]
]

complete-used :
    (o : Outside) (job : AttachmentJob) (now id : ℕ) (pages : List (ℕ × String)) (s : Files)
    (x : Index)
    → left id (complete o job now pages s x).0.0.jobs ≡ left id s.jobs
unfolding complete
complete-used o job now id pages s x = elim (Bool-cases (fenced o job now s)) [
  | inr lost ↦ rw (complete, lost) refl
  | inl holds ↦ elim (Bool-cases (is_refused pages)) [
    | inl refused ↦ rw (complete, holds, refused) refl
    | inr taken ↦ rw (complete, holds, taken) (left-update id _ _ s.jobs (λ j. refl))
  ]
]

retry-used :
    (o : Outside) (job : AttachmentJob) (now next_attempt_us id : ℕ) (stage reason : String)
    (is_dead : Bool) (s : Files)
    → left id (retry o job now next_attempt_us stage reason is_dead s).0.jobs ≡ left id s.jobs
unfolding retry
retry-used o job now next_attempt_us id stage reason is_dead s =
    elim (Bool-cases (is_stage stage)) [
      | inr wrong ↦ rw (retry, wrong) refl
      | inl known ↦ elim (Bool-cases (fenced o job now s)) [
        | inl holds ↦ rw (retry, known, holds) (left-update id _ _ s.jobs (λ j. refl))
        | inr lost ↦ rw (retry, known, lost) refl
      ]
    ]

step-used :
    (o : Outside) (op : Op) (id : ℕ) (st : (Files × Index) × List AttachmentJob)
    → used id (step o op st) ≤ used id st
step-used o (claims token now duration_us) id ((s, x), jobs) =
    claim_due-used o token now duration_us id s x jobs
step-used o (renews job now duration_us) id ((s, x), jobs) =
    let kept = renew-used o job now duration_us id s in omega arith
step-used o (completes job now pages) id ((s, x), jobs) =
    let kept = complete-used o job now id pages s x in omega arith
step-used o (retries job now next_attempt_us stage reason is_dead) id ((s, x), jobs) =
    let kept = retry-used o job now next_attempt_us id stage reason is_dead s in omega arith

run-used :
    (ops : List (Outside × Op)) (id : ℕ) (st : (Files × Index) × List AttachmentJob)
    → used id (run ops st) ≤ used id st
unfolding run
run-used [] id st = omega arith
run-used ((o, op) ∷ ops) id st =
    let first = step-used o op id st in let later = run-used ops id (step o op st) in omega arith

-- However the calls of the extractors are ordered, and whatever the graph says at each of them, an
-- attachment is claimed at most eight times.
pub run_at_most_eight :
    (ops : List (Outside × Op)) (s : Files) (x : Index) (id : ℕ)
    → count_where (is_for id) (run ops ((s, x), [])).1 ≤ 8
run_at_most_eight ops s x id =
    let used_up = run-used ops id ((s, x), []) in let at_first = left-bound id s.jobs in omega arith
