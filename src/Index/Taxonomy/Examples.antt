-- ===== src/Index/Taxonomy/Examples.antt =====
-- A commit of a type's vector at a concrete input.
use mcpmem.Prelude.{ℕ_discrete, ◌≡◌, refl, true, none, some, [], ◌∷◌, ok}
use mcpmem.Events.Records.{token-discrete}
use mcpmem.Index.Records.{Index, IndexOperation, JobState, JobState-discrete, RegistryState}
use mcpmem.Index.Taxonomy.Records.{Taxonomy, TaxonomyJob}
use mcpmem.Index.Taxonomy.{commit_vector}
use mcpmem.Index.Taxonomy.Repeat.{commit_vector_repeat}

abbrev job : TaxonomyJob
job = record {
  subject_kind = 0;
  subject_id = 4;
  subject_revision = 2;
  profile_id = 5;
  operation = IndexOperation.upsert;
  lease = record { token = 9; epoch = 1; until_us = 100 };
  attempts = 1;
}

abbrev taxonomy : Taxonomy
taxonomy = record {
  types = record { id = 4; kind = 0; count = 3; revision = 2 } ∷ [];
  jobs =
      record {
        subject_kind = 0;
        subject_id = 4;
        profile_id = 5;
        subject_revision = 2;
        operation = IndexOperation.upsert;
        state = JobState.leased;
        lease_token = some 9;
        lease_epoch = 1;
        lease_until_us = 100;
        attempts = 1;
        next_attempt_us = 0;
        last_error = none;
      }
      ∷ [];
  vectors = [];
}

abbrev index : Index
index = record {
  registry = record {
    state = RegistryState.active;
    serving = some 5;
    candidate = none;
    failure = none;
  };
  profiles = [];
  jobs = [];
  vectors = [];
  generations = [];
  kind_generations = [];
}

commits : (commit_vector job 20 (some (7 ∷ [])) "m" taxonomy index).1 ≡ ok true
unfolding commit_vector ℕ_discrete token-discrete JobState-discrete
commits = refl

commit_vector_repeat_example :
    let (t', x') = (commit_vector job 20 (some (7 ∷ [])) "m" taxonomy index).0 in
    commit_vector job 500 none "n" t' x' ≡ ((t', x'), ok true)
commit_vector_repeat_example =
    commit_vector_repeat job 20 500 (some (7 ∷ [])) none "m" "n" taxonomy index commits
