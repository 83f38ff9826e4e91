-- ===== src/Index/Profiles.antt =====
-- crates/mcpmem-core/src/jobs.rs: index profiles and the registry that says which of them serves.
pub mod Untouched
pub mod Machine
pub mod Activation
use mcpmem.Prelude.{
  ℕ, ◌+◌, ◌*◌, ◌/◌, ◌%◌, ◌^◌, Bool, true, false, ◌&&◌, ◌||◌, not, String, Option, none, some, List,
  [], ◌∷◌, ◌++◌, ltb, ◌==◌, nat_eq, text_eq, if◌then◌else◌, Result, ok, err, ◌>>=◌, ◌>>◌, refuse_if,
  first_where, exists_where, update_where, is_blank, has_control, byte_len, length,
}
use mcpmem.Events.Records.{CoreError, invalid_params, memory_error, io_error, first_chars, token_eq}
use mcpmem.Attachments.Records.{Attachment, ready, status_eq}
use mcpmem.Index.Records.{
  IndexProfile, Normalization, unnormalized, l2, ProfileRow, ProfileState, profile_state_eq,
  Registry, RegistryState, registry_state_eq, StoreState, Index, Sources, EntityRow, RevisionRow,
  RelationRow, JobRow, OwnerKind, entity, relation, attachment, JobState, pending, held, done,
  job_state_eq, IndexOperation, upsert, delete, AnnGeneration,
}
use mcpmem.Index.{nil, is_rebuilding, fresh_job}
use mcpmem.Index.Scan.{verify_vectors_current, generation_of, owner_lives}

-- SHA-256 over serde's JSON of a profile without its identifier, and whether the floats with these bits
-- have a norm within 1e-4 of 1.
pub record Arithmetic : Type 0 where
  pub digest : IndexProfile → String
  pub is_unit : List ℕ → Bool

abbrev pub is_bad_name : String → Bool
is_bad_name s = is_blank s || ltb 256 (byte_len s) || has_control s

unfoldable pub validate : IndexProfile → Result CoreError (Unit {0})
validate p =
    refuse_if
      (p.id == nil
        || not (p.store_key == "default")
        || p.dimensions == 0
        || ltb 65_536 p.dimensions
        || not (p.vector_encoding_version == "f32le-v1")
        || is_bad_name p.provider_kind
        || is_bad_name p.model
        || is_bad_name p.representation_version)
      invalid_params

abbrev pub fingerprint : Arithmetic → IndexProfile → Result CoreError String
fingerprint a p = validate p >> ok (a.digest p)

-- The bits of a float with every exponent bit set are an infinity or no number.
abbrev pub is_finite : ℕ → Bool
is_finite bits = not ((bits / 2 ^ 23) % 256 == 255)

unfoldable pub all_finite : List ℕ → Bool
all_finite [] = true
all_finite (b ∷ bits) = is_finite b && all_finite bits

unfoldable pub validate_vector : Arithmetic → IndexProfile → List ℕ → Result CoreError (Unit {0})
unfolding all_finite
validate_vector a p vector =
    refuse_if (not (length vector == p.dimensions) || not (all_finite vector)) invalid_params
    >> elim p.normalization [
      | unnormalized ↦ ok tt
      | l2 ↦ refuse_if (not (a.is_unit vector)) invalid_params
    ]

unfoldable pub get : ℕ → Index → Result CoreError IndexProfile
get id x = elim (first_where (λ r. r.definition.id == id) x.profiles) [
  | none ↦ err io_error
  | some r ↦ ok r.definition
]

unfoldable pub read_state :
    RegistryState → Option ℕ → Option ℕ → Option String → Result CoreError StoreState
read_state RegistryState.legacy_compat none none none = ok StoreState.legacy_compat
read_state RegistryState.active (some p) none none = ok (StoreState.active p)
read_state RegistryState.rebuilding serving (some c) none = ok (StoreState.rebuilding serving c)
read_state RegistryState.failed serving (some c) (some reason) =
    ok (StoreState.failed serving c reason)
read_state _ _ _ _ = err memory_error

abbrev pub state : Registry → Result CoreError StoreState
state r = read_state r.state r.serving r.candidate r.failure

abbrev pub serving_of : StoreState → Option ℕ
serving_of StoreState.legacy_compat = none
serving_of (StoreState.active p) = some p
serving_of (StoreState.rebuilding serving c) = serving
serving_of (StoreState.failed serving c reason) = serving

abbrev pub serving_profile : Registry → Result CoreError (Option ℕ)
serving_profile r = state r >>= λ st. ok (serving_of st)

-- `matches!(state, StoreState::Rebuilding { .. })`, and with this candidate.
abbrev pub in_rebuild : StoreState → Bool
in_rebuild StoreState.legacy_compat = false
in_rebuild (StoreState.active p) = false
in_rebuild (StoreState.rebuilding serving c) = true
in_rebuild (StoreState.failed serving c reason) = false

abbrev pub rebuilds : ℕ → StoreState → Bool
rebuilds id StoreState.legacy_compat = false
rebuilds id (StoreState.active p) = false
rebuilds id (StoreState.rebuilding serving c) = c == id
rebuilds id (StoreState.failed serving c reason) = false

-- INSERT … SELECT id,1,0 FROM entity WHERE flags=0 ON CONFLICT DO NOTHING
unfoldable pub first_revisions : List EntityRow → List RevisionRow → List RevisionRow
first_revisions [] revisions = revisions
first_revisions (e ∷ es) revisions =
    let row : RevisionRow = record { entity_id = e.id; revision = 1; deleted = false } in
    first_revisions es (
      if e.flags == 0 && not (exists_where (λ r. r.entity_id == e.id) revisions)
      then row ∷ revisions
      else revisions)

-- INSERT … SELECT … FROM entity JOIN entity_revision, FROM taxonomy_relation, FROM attachment.
unfoldable pub entity_jobs : ℕ → List RevisionRow → List EntityRow → List JobRow
entity_jobs profile revisions [] = []
entity_jobs profile revisions (e ∷ es) =
    let rest = entity_jobs profile revisions es in
    if e.flags == 0
    then elim (first_where (λ r. r.entity_id == e.id) revisions) [
      | none ↦ rest
      | some r ↦ fresh_job profile entity e.id r.revision upsert pending ∷ rest
    ]
    else rest

unfoldable pub relation_jobs : ℕ → List RelationRow → List JobRow
relation_jobs profile [] = []
relation_jobs profile (m ∷ ms) =
    fresh_job profile relation m.id m.revision (if m.deleted then delete else upsert) pending
    ∷ relation_jobs profile ms

unfoldable pub attachment_jobs : ℕ → Sources → List Attachment → List JobRow
attachment_jobs profile src [] = []
attachment_jobs profile src (a ∷ as_) =
    let rest = attachment_jobs profile src as_ in
    if a.status == ready && owner_lives src a
    then fresh_job profile attachment a.id a.revision upsert pending ∷ rest
    else rest

abbrev pub has_id : ℕ → ProfileRow → Bool
has_id id r = r.definition.id == id

abbrev pub is_candidate : Registry → ProfileRow → Bool
is_candidate reg r = elim reg.candidate [ none ↦ false | some c ↦ r.definition.id == c ]

-- The primary keys and the unique fingerprint of the rows that `begin_rebuild` inserts.
abbrev pub is_taken : ℕ → String → Index → Bool
is_taken id fingerprint x =
    exists_where (λ r. r.definition.id == id || r.fingerprint == fingerprint) x.profiles
    || exists_where (λ g. g.profile_id == id) x.generations

-- The rows of a rebuild. The profile is new, so none of its jobs is there yet.
abbrev pub rebuild : IndexProfile → String → Index → Sources → Index × Sources
rebuild p fingerprint x src =
    let revisions = first_revisions src.entities src.revisions in
    let src' = record src { revisions = revisions } in
    (
      record x {
        profiles =
            update_where (is_candidate x.registry) (λ r. record r { state = ProfileState.retired })
              (record { definition = p; fingerprint = fingerprint; state = ProfileState.rebuilding }
                ∷ x.profiles);
        registry = record {
          state = RegistryState.rebuilding;
          serving = x.registry.serving;
          candidate = some p.id;
          failure = none;
        };
        generations =
            record {
              profile_id = p.id;
              durable_generation = 0;
              published_generation = none;
              full_scan_generation = none;
            }
            ∷ x.generations;
        jobs =
            attachment_jobs p.id src' src.attachments
            ++ (relation_jobs p.id src.relations
                ++ (entity_jobs p.id revisions src.entities ++ x.jobs));
      },
      src',
    )

abbrev pub may_rebuild : Arithmetic → IndexProfile → Index → Result CoreError String
may_rebuild a p x = fingerprint a p >>= λ fp. state x.registry >>= λ st.
    refuse_if (in_rebuild st) invalid_params
    >> refuse_if (serving_of st == some p.id) invalid_params
    >> refuse_if (is_taken p.id fp x) io_error
    >> ok fp

unfoldable pub begin_rebuild :
    Arithmetic → IndexProfile → Index → Sources → (Index × Sources) × Result CoreError (Unit {0})
unfolding validate read_state first_revisions entity_jobs relation_jobs attachment_jobs
begin_rebuild a p x src = elim (may_rebuild a p x) [
  | err e ↦ ((x, src), err e)
  | ok fp ↦ (rebuild p fp x src, ok tt)
]

-- state='held', lease_token=NULL, lease_epoch+1
abbrev pub hold : JobRow → JobRow
hold j = record j { state = held; lease_token = none; lease_epoch = j.lease_epoch + 1 }

unfoldable pub fail_rebuild : ℕ → String → Index → Index × Result CoreError (Unit {0})
fail_rebuild candidate reason x =
    if is_rebuilding x.registry && x.registry.candidate == some candidate
    then (
      record x {
        registry = record {
          state = RegistryState.failed;
          serving = x.registry.serving;
          candidate = x.registry.candidate;
          failure = some (first_chars 2048 reason);
        };
        jobs = update_where (λ j. j.profile_id == candidate && not (j.state == done)) hold x.jobs;
      },
      ok tt,
    )
    else (x, err invalid_params)

-- The verified scan and the published vectors are of the durable generation.
abbrev pub is_published : AnnGeneration → Bool
is_published g =
    g.full_scan_generation == some g.durable_generation
    && g.published_generation == some g.durable_generation

abbrev pub published : Option AnnGeneration → Result CoreError (Unit {0})
published none = err io_error
published (some g) = refuse_if (not (is_published g)) invalid_params

abbrev pub may_activate : ℕ → Sources → Index → Result CoreError (Unit {0})
may_activate candidate src x = get candidate x >>= λ profile. state x.registry >>= λ st.
    refuse_if (not (rebuilds candidate st)) invalid_params
    >> verify_vectors_current candidate src x
    >> published (generation_of candidate x)

-- The active profile retires, the candidate becomes it, and the jobs of all others are held.
abbrev pub promote : ℕ → Index → Index
promote candidate x = record x {
  profiles =
      update_where (has_id candidate) (λ r. record r { state = ProfileState.active })
        (update_where (λ r. r.state == ProfileState.active)
          (λ r. record r { state = ProfileState.retired }) x.profiles);
  registry = record {
    state = RegistryState.active;
    serving = some candidate;
    candidate = none;
    failure = none;
  };
  jobs = update_where (λ j. not (j.profile_id == candidate) && not (j.state == done)) hold x.jobs;
}

unfoldable pub activate : ℕ → Sources → Index → Index × Result CoreError (Unit {0})
unfolding get read_state
activate candidate src x = elim (may_activate candidate src x) [
  | err e ↦ (x, err e)
  | ok _ ↦ (promote candidate x, ok tt)
]
