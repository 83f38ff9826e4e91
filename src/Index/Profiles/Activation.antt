-- ===== src/Index/Profiles/Activation.antt =====
-- crates/mcpmem-core/src/jobs.rs: what an activation rests on, and what it leaves.
use mcpmem.Prelude.{
  ℕ, ◌≡◌, ◌≢◌, refl, ap, ◌∙◌, Bool, true, false, ◌&&◌, not, Option, some, arith, inl, inr, ◌⊎◌,
  Bool-cases, Option-cases, ok, Result-cases, ◌==◌, nat_eq, exists_where, All, All-map, All-of,
  All-update, exists_where-none,
}
use mcpmem.Events.Records.{token_eq, DeliveryState, state_eq}
use mcpmem.Attachments.Records.{ExtractionJob}
use mcpmem.Index.Records.{
  Index, Sources, EntityRow, RevisionRow, RelationRow, VectorRow, JobRow, held, done, dead,
  job_state_eq, ProfileRow, ProfileState, profile_state_eq, AnnGeneration, StoreState, OwnerKind,
  entity, relation, ChunkKind,
}
use mcpmem.Index.Scan.{
  scan_invalid, is_vector, is_dead_job, is_stale, entity_missing, revision_missing, is_extracting,
  relation_missing, is_unfinished, generation_of,
}
use mcpmem.Index.Profiles.{
  state, read_state, rebuilds, activate, may_activate, hold, get, is_published, has_id,
}

-- The profile holds this vector of the owner, and every such vector is of the revision.
abbrev pub Current : (VectorRow → Bool) → ℕ → Index → Type 0
Current test revision x =
    (exists_where test x.vectors ≡ true)
    × All (λ v. test v ≡ true → v.owner_revision ≡ revision) x.vectors

-- The owner's job is dead, or its vector is current.
abbrev pub Indexed : ℕ → ChunkKind → OwnerKind → ℕ → ℕ → Index → Type 0
Indexed profile kind owner_kind id revision x =
    (exists_where (is_dead_job profile owner_kind id) x.jobs ≡ true)
    ⊎ Current (is_vector profile kind owner_kind id) revision x

is_stale-Current :
    (test : VectorRow → Bool) (revision : ℕ) (x : Index)
    → is_stale test revision x.vectors ≡ false
    → Current test revision x
is_stale-Current test revision x h = (
  ground arith,
  All-map _ _ x.vectors (λ v f t. ground arith)
      (exists_where-none (λ v. test v && not (v.owner_revision == revision)) x.vectors
        (ground arith)),
)

indexed :
    (profile : ℕ) (kind : ChunkKind) (owner_kind : OwnerKind) (id revision : ℕ) (x : Index)
    → (not (exists_where (is_dead_job profile owner_kind id) x.jobs)
        && is_stale (is_vector profile kind owner_kind id) revision x.vectors)
      ≡ false
    → Indexed profile kind owner_kind id revision x
indexed profile kind owner_kind id revision x h =
    elim (Bool-cases (exists_where (is_dead_job profile owner_kind id) x.jobs)) [
      | inl is_dead ↦ inl is_dead
      | inr alive ↦
          inr (is_stale-Current (is_vector profile kind owner_kind id) revision x (rw alive at h))
    ]

-- What the scan of a profile found.
pub record Scanned (profile : ℕ) (src : Sources) (x : Index) : Type 0 where
  pub entities :
      All
        (λ (e : EntityRow).
          e.flags ≡ 0
          → All
              (λ (r : RevisionRow).
                r.entity_id ≡ e.id → Indexed profile ChunkKind.identity entity e.id r.revision x)
              src.revisions)
        src.entities
  pub relations :
      All
        (λ (m : RelationRow).
          m.deleted ≡ false → Indexed profile ChunkKind.relation relation m.id m.revision x)
        src.relations
  pub finished :
      All (λ (j : JobRow). j.profile_id ≡ profile → (j.state ≡ done) ⊎ (j.state ≡ dead)) x.jobs
  pub extracted :
      All
        (λ (j : ExtractionJob).
          (j.state ≢ DeliveryState.pending) × (j.state ≢ DeliveryState.leased))
        src.extraction

is_unfinished-cases :
    (profile : ℕ) (j : JobRow)
    → is_unfinished profile j ≡ false
    → j.profile_id ≡ profile
    → (j.state ≡ done) ⊎ (j.state ≡ dead)
is_unfinished-cases profile j h e = ground arith

scan_invalid-Scanned :
    (profile : ℕ) (src : Sources) (x : Index)
    → scan_invalid profile src x ≡ false
    → Scanned profile src x
unfolding scan_invalid
scan_invalid-Scanned profile src x h = record {
  entities =
      All-map _ _ src.entities
        (λ e f live.
          All-map _ _ src.revisions
            (λ r g same.
              indexed profile ChunkKind.identity entity e.id r.revision x (ground (arith, g)))
            (exists_where-none (revision_missing profile x e) src.revisions (ground (arith, f))))
        (exists_where-none (entity_missing profile x src.revisions) src.entities (ground arith));
  relations =
      All-map _ _ src.relations
        (λ m f live.
          indexed profile ChunkKind.relation relation m.id m.revision x (ground (arith, f)))
        (exists_where-none (relation_missing profile x) src.relations (ground arith));
  finished =
      All-map _ _ x.jobs (λ j f. is_unfinished-cases profile j f)
        (exists_where-none (is_unfinished profile) x.jobs (ground arith));
  extracted =
      All-map _ _ src.extraction (λ j f. (λ e. ground (arith, f), λ e. ground (arith, f)))
        (exists_where-none is_extracting src.extraction (ground arith));
}

pub rebuilds-read :
    (candidate : ℕ) (s : StoreState)
    → rebuilds candidate s ≡ true
    → (serving : Option ℕ) × (s ≡ StoreState.rebuilding serving candidate)
rebuilds-read candidate StoreState.legacy_compat h = let no : ⊥ = ground arith in absurd no
rebuilds-read candidate (StoreState.active p) h = let no : ⊥ = ground arith in absurd no
rebuilds-read candidate (StoreState.rebuilding serving c) h = (serving, ground arith)
rebuilds-read candidate (StoreState.failed serving c reason) h =
    let no : ⊥ = ground arith in absurd no

-- What an activation rests on.
pub record Activates (candidate : ℕ) (src : Sources) (x : Index) : Type 0 where
  pub rebuilt :
      (serving : Option ℕ) × (state x.registry ≡ ok (StoreState.rebuilding serving candidate))
  pub scanned : Scanned candidate src x
  pub generation :
      (g : AnnGeneration) × (generation_of candidate x ≡ some g)
      × (g.full_scan_generation ≡ some g.durable_generation)
      × (g.published_generation ≡ some g.durable_generation)

pub may_activate-Activates :
    (candidate : ℕ) (src : Sources) (x : Index)
    → may_activate candidate src x ≡ ok tt
    → Activates candidate src x
may_activate-Activates candidate src x h = elim (Result-cases (get candidate x)) [
  | inl (e, missing) ↦ let no : ⊥ = ground (arith, missing) in absurd no
  | inr (p, found) ↦ elim (Result-cases (state x.registry)) [
    | inl (e, broken) ↦ let no : ⊥ = ground (arith, found, broken) in absurd no
    | inr (st, reads) ↦ elim (Bool-cases (rebuilds candidate st)) [
      | inr other ↦ let no : ⊥ = ground (arith, found, reads) in absurd no
      | inl rebuilt ↦ elim (Bool-cases (scan_invalid candidate src x)) [
        | inl bad ↦ let no : ⊥ = ground (arith, found, reads) in absurd no
        | inr clean ↦ elim (Option-cases (generation_of candidate x)) [
          | inl none_here ↦ let no : ⊥ = ground (arith, found, reads) in absurd no
          | inr (g, is_g) ↦ elim (Bool-cases (is_published g)) [
            | inr unpublished ↦ let no : ⊥ = ground (arith, found, reads) in absurd no
            | inl both ↦
                let (serving, is_st) = rebuilds-read candidate st rebuilt in
                record {
                  rebuilt = (serving, reads ∙ ap ok is_st);
                  scanned = scan_invalid-Scanned candidate src x clean;
                  generation = (g, is_g, ground arith, ground arith);
                }
          ]
        ]
      ]
    ]
  ]
]

-- An activation succeeds only if the candidate is being rebuilt; each live entity and relation has a
-- dead job or current vectors in it; its jobs and all extractions have ended; and its published
-- vectors and its verified scan are of the durable generation. After it the store serves the
-- candidate, no other profile is active, and the jobs of all others are held or done.
pub activate_sound :
    (candidate : ℕ) (src : Sources) (x : Index)
    → (activate candidate src x).1 ≡ ok tt
    → let x' = (activate candidate src x).0 in
      Activates candidate src x
      × (state x'.registry ≡ ok (StoreState.active candidate))
      × All
          (λ (r : ProfileRow). r.state ≡ ProfileState.active → r.definition.id ≡ candidate)
          x'.profiles
      × All (λ (j : JobRow). j.profile_id ≢ candidate → (j.state ≡ held) ⊎ (j.state ≡ done)) x'.jobs
unfolding activate read_state
activate_sound candidate src x h = elim (Result-cases (may_activate candidate src x)) [
  | inl (e, bad) ↦ let no : ⊥ = ground (arith, bad) in absurd no
  | inr (_, good) ↦
      rw (good, activate)
        (
          may_activate-Activates candidate src x good,
          refl,
          All-update (λ r. r.state ≢ ProfileState.active) _ (has_id candidate)
              (λ r. record r { state = ProfileState.active }) _ (λ r _ hit _. ground arith)
              (λ r ne _ e. absurd (ne e))
              (All-update (λ _. Unit {0}) (λ r. r.state ≢ ProfileState.active)
                (λ r. r.state == ProfileState.active)
                (λ r. record r { state = ProfileState.retired }) x.profiles
                (λ r _ _ e. ground arith) (λ r _ miss e. ground arith)
                (All-of _ x.profiles (λ _. tt))),
          All-update (λ _. Unit {0}) _
              (λ j. not (j.profile_id == candidate) && not (j.state == done)) hold x.jobs
              (λ j _ _ _. inl refl) (λ j _ miss ne. inr (ground arith)) (All-of _ x.jobs (λ _. tt)),
        )
]
