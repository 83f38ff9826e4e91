-- ===== src/Index/Records.antt =====
-- The rows and values of the vector index: jobs.rs, and the tables of 0001, 0007 and 0009 that it
-- reads and writes.
use mcpmem.Prelude.{ℕ, String, Bool, Option, List, Eq}
use mcpmem.Events.Records.{Lease}
use mcpmem.Attachments.Records.{Attachment, Segment, ExtractionJob}

pub data OwnerKind : Type 0 where
  entity relation attachment : OwnerKind

unfoldable pub OwnerKind-discrete : Discrete OwnerKind
OwnerKind-discrete = hlevel

instance abbrev pub owner_kind_eq : Eq OwnerKind
owner_kind_eq = record { decide = OwnerKind-discrete }

pub data ChunkKind : Type 0 where
  identity observation relation attachment : ChunkKind

unfoldable pub ChunkKind-discrete : Discrete ChunkKind
ChunkKind-discrete = hlevel

instance abbrev pub chunk_kind_eq : Eq ChunkKind
chunk_kind_eq = record { decide = ChunkKind-discrete }

pub data IndexOperation : Type 0 where
  upsert delete : IndexOperation

pub data JobState : Type 0 where
  pending leased held done dead : JobState

unfoldable pub JobState-discrete : Discrete JobState
JobState-discrete = hlevel

instance abbrev pub job_state_eq : Eq JobState
job_state_eq = record { decide = JobState-discrete }

pub data Normalization : Type 0 where
  unnormalized l2 : Normalization

pub data DistanceMetric : Type 0 where
  cosine inner_product l2_squared : DistanceMetric

pub record IndexProfile : Type 0 where
  pub id : ℕ
  pub store_key : String
  pub provider_kind : String
  pub model : String
  pub dimensions : ℕ
  pub representation_version : String
  pub normalization : Normalization
  pub distance_metric : DistanceMetric
  pub vector_encoding_version : String

pub data ProfileState : Type 0 where
  rebuilding active retired : ProfileState

unfoldable pub ProfileState-discrete : Discrete ProfileState
ProfileState-discrete = hlevel

instance abbrev pub profile_state_eq : Eq ProfileState
profile_state_eq = record { decide = ProfileState-discrete }

-- A row of `index_profile`; its store key is that of the definition.
pub record ProfileRow : Type 0 where
  pub definition : IndexProfile
  pub fingerprint : String
  pub state : ProfileState

pub data RegistryState : Type 0 where
  legacy_compat active rebuilding failed : RegistryState

unfoldable pub RegistryState-discrete : Discrete RegistryState
RegistryState-discrete = hlevel

instance abbrev pub registry_state_eq : Eq RegistryState
registry_state_eq = record { decide = RegistryState-discrete }

-- The row of `index_profile_registry` for the store `default`, the only one.
pub record Registry : Type 0 where
  pub state : RegistryState
  pub serving : Option ℕ
  pub candidate : Option ℕ
  pub failure : Option String

pub data StoreState : Type 0 where
  legacy_compat : StoreState
  active : ℕ → StoreState
  rebuilding : Option ℕ → ℕ → StoreState
  failed : Option ℕ → ℕ → String → StoreState

-- A row of `chunk_index_job`.
pub record JobRow : Type 0 where
  pub profile_id : ℕ
  pub owner_kind : OwnerKind
  pub owner_id : ℕ
  pub owner_revision : ℕ
  pub operation : IndexOperation
  pub state : JobState
  pub lease_token : Option ℕ
  pub lease_epoch : ℕ
  pub lease_until_us : ℕ
  pub attempts : ℕ
  pub next_attempt_us : ℕ
  pub last_error : Option String

pub record IndexJob : Type 0 where
  pub profile_id : ℕ
  pub operation : IndexOperation
  pub owner_kind : OwnerKind
  pub owner_id : ℕ
  pub owner_revision : ℕ
  pub lease : Lease
  pub attempts : ℕ

-- A row of `chunk_vector`. A vector is the list of the bits of its floats.
pub record VectorRow : Type 0 where
  pub profile_id : ℕ
  pub kind : ChunkKind
  pub owner_kind : OwnerKind
  pub owner_id : ℕ
  pub chunk_index : ℕ
  pub type_id : ℕ
  pub owner_revision : ℕ
  pub vector : List ℕ
  pub created_at_us : ℕ
  pub source : String

-- A row of `ann_generation`; `none` stands for the generation -1 that was never published.
pub record AnnGeneration : Type 0 where
  pub profile_id : ℕ
  pub durable_generation : ℕ
  pub published_generation : Option ℕ
  pub full_scan_generation : Option ℕ

-- A row of `taxonomy_ann_generation`.
pub record KindGeneration : Type 0 where
  pub profile_id : ℕ
  pub subject_kind : ℕ
  pub durable_generation : ℕ
  pub published_generation : Option ℕ
  pub full_scan_generation : Option ℕ

pub record Index : Type 0 where
  pub registry : Registry
  pub profiles : List ProfileRow
  pub jobs : List JobRow
  pub vectors : List VectorRow
  pub generations : List AnnGeneration
  pub kind_generations : List KindGeneration

-- Rows of `entity`, where a live entity has no flags, of `entity_revision`, and of `taxonomy_relation`.
pub record EntityRow : Type 0 where
  pub id : ℕ
  pub type_id : ℕ
  pub flags : ℕ

pub record RevisionRow : Type 0 where
  pub entity_id : ℕ
  pub revision : ℕ
  pub deleted : Bool

pub record RelationRow : Type 0 where
  pub id : ℕ
  pub type_id : ℕ
  pub revision : ℕ
  pub deleted : Bool

-- The tables whose owners the index embeds.
pub record Sources : Type 0 where
  pub entities : List EntityRow
  pub revisions : List RevisionRow
  pub relations : List RelationRow
  pub attachments : List Attachment
  pub segments : List Segment
  pub extraction : List ExtractionJob
