-- ===== src/Index/Taxonomy/Repeat.antt =====
-- crates/mcpmem-core/src/jobs.rs: a completed commit of a type's vector, repeated.
use mcpmem.Prelude.{
  ℕ, ◌≡◌, refl, ap, ◌∙◌, true, ◌&&◌, String, Option, some, List, arith, inl, inr, Bool-cases,
  Option-cases, ok, Result-cases, ◌==◌, nat_eq, first_where, first_where-test, first_where-update,
  update_where, ltb,
}
use mcpmem.Events.Records.{token_eq}
use mcpmem.Index.Records.{Index, leased, done, job_state_eq}
use mcpmem.Index.Taxonomy.Records.{Taxonomy, TaxonomyJob, TaxonomyRow}
use mcpmem.Index.Taxonomy.{
  commit_vector, write, is_current, is_leased_to, source_revision, new_vectors,
}

-- The job's row is done.
record Ended (job : TaxonomyJob) (t : Taxonomy) : Type 0 where
  row : TaxonomyRow
  found : first_where (is_current job) t.jobs ≡ some row
  ended : row.state ≡ done

Ended-commit_vector :
    (job : TaxonomyJob) (now : ℕ) (vector : Option (List ℕ)) (source : String) (t : Taxonomy)
    (x : Index)
    → Ended job t
    → commit_vector job now vector source t x ≡ ((t, x), ok true)
unfolding commit_vector
Ended-commit_vector job now vector source t x e =
    let ended = e.ended in
    let is_done : (e.row.state == done) ≡ true = ground (arith, ended) in
    rw (commit_vector, e.found, is_done) refl

abbrev finish : TaxonomyRow → TaxonomyRow
finish j = record j { state = done }

finished :
    (job : TaxonomyJob) (jobs : List TaxonomyRow) (j : TaxonomyRow)
    → first_where (is_current job) jobs ≡ some j
    → first_where (is_current job) (update_where (is_leased_to job) finish jobs) ≡ some (finish j)
finished job jobs j found =
    let current = first_where-test (is_current job) jobs found in
    let mine : is_leased_to job j ≡ true = ground (arith, current) in
    first_where-update (is_current job) (is_leased_to job) finish jobs j (λ _. refl) found
    ∙ ap some (rw mine refl)

write-Ended :
    (job : TaxonomyJob) (now : ℕ) (vector : Option (List ℕ)) (source : String) (t : Taxonomy)
    (x : Index) (j : TaxonomyRow)
    → first_where (is_current job) t.jobs ≡ some j
    → (write job now vector source t x).1 ≡ ok true
    → Ended job (write job now vector source t x).0.0
write-Ended job now vector source t x j found h =
    elim (Result-cases (new_vectors job now vector source t.vectors)) [
      | inl (e, bad) ↦ let no : ⊥ = ground (arith, bad) in absurd no
      | inr (vectors, good) ↦
          rw (write, good)
            (record { row = finish j; found = finished job t.jobs j found; ended = refl })
    ]

commit_vector-Ended :
    (job : TaxonomyJob) (now : ℕ) (vector : Option (List ℕ)) (source : String) (t : Taxonomy)
    (x : Index)
    → (commit_vector job now vector source t x).1 ≡ ok true
    → Ended job (commit_vector job now vector source t x).0.0
unfolding commit_vector
commit_vector-Ended job now vector source t x h =
    elim (Option-cases (first_where (is_current job) t.jobs)) [
      | inl missing ↦ let no : ⊥ = ground (arith, missing) in absurd no
      | inr (j, found) ↦ elim (Bool-cases (j.state == done)) [
        | inl is_done ↦
            rw (commit_vector, found, is_done)
              (record { row = j; found = found; ended = ground (arith, is_done) })
        | inr open_row ↦ elim (Bool-cases (j.state == leased && ltb now j.lease_until_us)) [
          | inr expired ↦ let no : ⊥ = ground (arith, found, open_row, expired) in absurd no
          | inl running ↦ elim (Bool-cases (source_revision job t.types == job.subject_revision)) [
            | inr old ↦ let no : ⊥ = ground (arith, found, open_row, running, old) in absurd no
            | inl same ↦
                rw (commit_vector, found, open_row, running, same)
                  (write-Ended job now vector source t x j found
                    (rw (commit_vector, found, open_row, running, same) at h))
          ]
        ]
      ]
    ]

-- A commit that succeeded, repeated with whatever payload and however late, succeeds and changes
-- nothing.
pub commit_vector_repeat :
    (job : TaxonomyJob) (now later : ℕ) (vector again : Option (List ℕ)) (source other : String)
    (t : Taxonomy) (x : Index)
    → (commit_vector job now vector source t x).1 ≡ ok true
    → let (t', x') = (commit_vector job now vector source t x).0 in
      commit_vector job later again other t' x' ≡ ((t', x'), ok true)
commit_vector_repeat job now later vector again source other t x h =
    Ended-commit_vector job later again other (commit_vector job now vector source t x).0.0
      (commit_vector job now vector source t x).0.1
      (commit_vector-Ended job now vector source t x h)
