-- ===== src/Index/Taxonomy/Records.antt =====
-- The rows of the types' queue: jobs.rs, and the tables of 0007_taxonomy_index.sql.
use mcpmem.Prelude.{ℕ, String, Option, List}
use mcpmem.Events.Records.{Lease}
use mcpmem.Index.Records.{IndexOperation, JobState}

-- A row of `type_dict`.
pub record TypeRow : Type 0 where
  pub id : ℕ
  pub kind : ℕ
  pub count : ℕ
  pub revision : ℕ

-- A row of `taxonomy_job`.
pub record TaxonomyRow : Type 0 where
  pub subject_kind : ℕ
  pub subject_id : ℕ
  pub profile_id : ℕ
  pub subject_revision : ℕ
  pub operation : IndexOperation
  pub state : JobState
  pub lease_token : Option ℕ
  pub lease_epoch : ℕ
  pub lease_until_us : ℕ
  pub attempts : ℕ
  pub next_attempt_us : ℕ
  pub last_error : Option String

pub record TaxonomyJob : Type 0 where
  pub subject_kind : ℕ
  pub subject_id : ℕ
  pub subject_revision : ℕ
  pub profile_id : ℕ
  pub operation : IndexOperation
  pub lease : Lease
  pub attempts : ℕ

-- A row of `taxonomy_vector`.
pub record TaxonomyVector : Type 0 where
  pub profile_id : ℕ
  pub subject_kind : ℕ
  pub subject_id : ℕ
  pub subject_revision : ℕ
  pub vector : List ℕ
  pub created_at_us : ℕ
  pub source : String

pub record Taxonomy : Type 0 where
  pub types : List TypeRow
  pub jobs : List TaxonomyRow
  pub vectors : List TaxonomyVector
