-- ===== src/Index/Examples.antt =====
-- Tests of the index, and its theorems at concrete inputs. The digest names the model here.
use mcpmem.Prelude.{
  ℕ, ℕ_discrete, ◌≡◌, ◌≢◌, refl, true, false, Option, none, some, List, [], ◌∷◌, ok, All, ◌⊎◌, ◌==◌,
  nat_eq, exists_where,
}
use mcpmem.Events.Records.{token-discrete}
use mcpmem.Index.Records.{
  Index, Sources, IndexProfile, IndexJob, JobRow, VectorRow, StoreState, Normalization,
  DistanceMetric, OwnerKind, IndexOperation, JobState, ChunkKind, RegistryState, ProfileState, held,
  done, ProfileRow, OwnerKind-discrete, JobState-discrete, ChunkKind-discrete,
  RegistryState-discrete,
}
use mcpmem.Index.{enqueue_chunk_change, serving_profile_ids, retry}
use mcpmem.Index.Scan.{scan_invalid}
use mcpmem.Index.Profiles.{
  Arithmetic, state, read_state, activate, get, validate_vector, all_finite,
}
use mcpmem.Index.Profiles.Machine.{Runs, run_refines}
use mcpmem.Index.Profiles.Activation.{Activates, activate_sound}
use mcpmem.Index.Commit.{commit_chunks, owner_revision, owner_type_id, chunk_rows}
use mcpmem.Index.Commit.Fence.{Committed, commit_chunks_exact}
use mcpmem.Index.Commit.Barrier.{commit_blocks_activation, enqueue_supersedes}
use mcpmem.Index.Trace

abbrev arithmetic : Arithmetic
arithmetic = record { digest = λ p. p.model; is_unit = λ _. true }

abbrev profile : IndexProfile
profile = record {
  id = 5;
  store_key = "default";
  provider_kind = "local";
  model = "m";
  dimensions = 1;
  representation_version = "1";
  normalization = Normalization.unnormalized;
  distance_metric = DistanceMetric.cosine;
  vector_encoding_version = "f32le-v1";
}

abbrev row : JobRow
row = record {
  profile_id = 5;
  owner_kind = OwnerKind.entity;
  owner_id = 3;
  owner_revision = 1;
  operation = IndexOperation.upsert;
  state = JobState.leased;
  lease_token = some 9;
  lease_epoch = 1;
  lease_until_us = 100;
  attempts = 1;
  next_attempt_us = 0;
  last_error = none;
}

abbrev job : IndexJob
job = record {
  profile_id = 5;
  operation = IndexOperation.upsert;
  owner_kind = OwnerKind.entity;
  owner_id = 3;
  owner_revision = 1;
  lease = record { token = 9; epoch = 1; until_us = 100 };
  attempts = 1;
}

abbrev vector : VectorRow
vector = record {
  profile_id = 5;
  kind = ChunkKind.identity;
  owner_kind = OwnerKind.entity;
  owner_id = 3;
  chunk_index = 0;
  type_id = 2;
  owner_revision = 1;
  vector = 7 ∷ [];
  created_at_us = 10;
  source = "m";
}

abbrev sources : Sources
sources = record {
  entities = record { id = 3; type_id = 2; flags = 0 } ∷ [];
  revisions = record { entity_id = 3; revision = 1; deleted = false } ∷ [];
  relations = [];
  attachments = [];
  segments = [];
  extraction = [];
}

abbrev rebuilt : Index
rebuilt = record {
  registry = record {
    state = RegistryState.rebuilding;
    serving = none;
    candidate = some 5;
    failure = none;
  };
  profiles =
      record { definition = profile; fingerprint = "m"; state = ProfileState.rebuilding } ∷ [];
  jobs = record row { state = JobState.done } ∷ [];
  vectors = vector ∷ [];
  generations =
      record {
        profile_id = 5;
        durable_generation = 1;
        published_generation = some 1;
        full_scan_generation = some 1;
      }
      ∷ [];
  kind_generations = [];
}

abbrev running : Index
running = record rebuilt { jobs = row ∷ []; vectors = [] }

reads : state rebuilt.registry ≡ ok (StoreState.rebuilding none 5)
unfolding read_state
reads = refl

run_refines_example :
    (s : StoreState) × (state
        (Trace.run arithmetic (Trace.activates 5 ∷ []) (rebuilt, sources)).0.registry
      ≡ ok s)
    × Runs (Trace.activates 5 ∷ []) (StoreState.rebuilding none 5) s
run_refines_example =
    run_refines arithmetic (Trace.activates 5 ∷ []) rebuilt sources (StoreState.rebuilding none 5)
      reads

activates : (activate 5 sources rebuilt).1 ≡ ok tt
unfolding activate get read_state scan_invalid ℕ_discrete OwnerKind-discrete JobState-discrete
    ChunkKind-discrete token-discrete
activates = refl

activate_sound_example :
    let x' = (activate 5 sources rebuilt).0 in
    Activates 5 sources rebuilt
    × (state x'.registry ≡ ok (StoreState.active 5))
    × All (λ (r : ProfileRow). r.state ≡ ProfileState.active → r.definition.id ≡ 5) x'.profiles
    × All (λ (j : JobRow). j.profile_id ≢ 5 → (j.state ≡ held) ⊎ (j.state ≡ done)) x'.jobs
activate_sound_example = activate_sound 5 sources rebuilt activates

abbrev chunks : Option (List (ChunkKind × List ℕ))
chunks = some ((ChunkKind.identity, 7 ∷ []) ∷ [])

commits : (commit_chunks arithmetic job 20 chunks "m" sources running).1 ≡ ok true
unfolding commit_chunks owner_revision owner_type_id chunk_rows get validate_vector all_finite
    ℕ_discrete OwnerKind-discrete JobState-discrete ChunkKind-discrete token-discrete
commits = refl

commit_chunks_exact_example :
    Committed arithmetic job 20 chunks "m" sources running
      (commit_chunks arithmetic job 20 chunks "m" sources running).0
commit_chunks_exact_example =
    commit_chunks_exact arithmetic job 20 chunks "m" sources running commits

commit_blocks_activation_example :
    let w =
      Trace.run arithmetic
        (Trace.publishes 5 2 ∷ [])
        ((commit_chunks arithmetic job 20 chunks "m" sources running).0, sources) in
    (activate 5 w.1 w.0).1 ≢ ok tt
commit_blocks_activation_example =
    commit_blocks_activation arithmetic job 20 chunks "m" sources running (Trace.publishes 5 2 ∷ [])
      commits (tt, tt)

rebuilds_profile : exists_where (λ p. p == 5) (serving_profile_ids rebuilt.registry) ≡ true
unfolding serving_profile_ids ℕ_discrete RegistryState-discrete
rebuilds_profile = refl

enqueue_supersedes_example :
    let x' = enqueue_chunk_change OwnerKind.entity 3 2 false running in
    (commit_chunks arithmetic job 20 chunks "m" sources x' ≡ (x', ok false))
    × (retry job 20 30 "timeout" true x' ≡ (x', false))
enqueue_supersedes_example =
    enqueue_supersedes arithmetic job 20 30 2 false chunks "m" "timeout" true sources running
      rebuilds_profile
