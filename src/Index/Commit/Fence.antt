-- ===== src/Index/Commit/Fence.antt =====
-- crates/mcpmem-core/src/jobs.rs: what a commit writes.
use mathlib.Core.List.{append-nil}
use mcpmem.Prelude.{
  ℕ, ◌+◌, ◌≡◌, refl, sym, ap, ◌∙◌, subst, Bool, true, String, Option, none, some, List, [], ◌∷◌,
  ◌++◌, map, arith, inl, inr, ◌⊎◌, Bool-cases, Option-cases, Result, ok, Result-cases, nat_eq,
  delete_where, select, All, All-map, select-append, select_none, select_all, delete_where-All,
  delete_where-append, delete_where_twice,
}
use mcpmem.Events.Records.{CoreError, token_eq}
use mcpmem.Index.Records.{
  Index, Sources, IndexJob, IndexProfile, VectorRow, ChunkKind, owner_kind_eq,
}
use mcpmem.Index.{is_vector_of}
use mcpmem.Index.Profiles.{Arithmetic, get, validate_vector}
use mcpmem.Index.Commit.{
  commit_chunks, under_lease, is_live_revision, owner_revision, payload_fits, lacks_chunks,
  bad_attachment, new_vectors, chunk_rows, vector_row, replace, owner_type_id, fits_operation,
}

abbrev pub Chunks : Type 0
Chunks = List (ChunkKind × List ℕ)

abbrev pub payload : Option Chunks → Chunks
payload none = []
payload (some chunks) = chunks

-- The primary key of a row within its owner, and what it holds.
abbrev pub content : VectorRow → ℕ × ChunkKind × List ℕ
content v = (v.chunk_index, v.kind, v.vector)

-- The chunks with their positions in the call.
abbrev pub numbered : ℕ → Chunks → List (ℕ × ChunkKind × List ℕ)
numbered index [] = []
numbered index ((kind, vector) ∷ chunks) = (index, kind, vector) ∷ numbered (index + 1) chunks

-- The row holds what the job commits.
abbrev pub Writes : IndexJob → VectorRow → Type 0
Writes job v =
    (is_vector_of job.profile_id job.owner_kind job.owner_id v ≡ true)
    × (v.owner_revision ≡ job.owner_revision)

chunk_rows-kept :
    (check : List ℕ → Result CoreError (Unit {0})) (job : IndexJob) (type_id now : ℕ)
    (source : String) (index : ℕ) (chunks : Chunks) (rows : List VectorRow)
    → chunk_rows check (vector_row job type_id now source) index chunks ≡ ok rows
    → (map content rows ≡ numbered index chunks)
      × All (Writes job) rows
      × All (λ (v : VectorRow). check v.vector ≡ ok tt) rows
unfolding chunk_rows
chunk_rows-kept check job type_id now source index [] rows h =
    let e : [] ≡ rows = ground arith in
    subst
      (λ q.
        (map content q ≡ [])
        × All (Writes job) q
        × All (λ (v : VectorRow). check v.vector ≡ ok tt) q)
      e (refl, tt, tt)
chunk_rows-kept check job type_id now source index ((kind, vector) ∷ chunks) rows h =
    elim (Result-cases (check vector)) [
      | inl (e, bad) ↦ let no : ⊥ = ground (arith, bad) in absurd no
      | inr (_, good) ↦
          elim (Result-cases
            (chunk_rows check (vector_row job type_id now source) (index + 1) chunks)) [
              | inl (e, bad) ↦ let no : ⊥ = ground (arith, good, bad) in absurd no
              | inr (rest, below) ↦
                  let (same, wrote, checked) =
                    chunk_rows-kept check job type_id now source (index + 1) chunks rest below in
                  let e : (vector_row job type_id now source kind index vector ∷ rest) ≡ rows =
                    ground (arith, good, below) in
                  subst
                    (λ q.
                      (map content q ≡ numbered index ((kind, vector) ∷ chunks))
                      × All (Writes job) q
                      × All (λ (v : VectorRow). check v.vector ≡ ok tt) q)
                    e
                    (
                      ap (◌∷◌ (index, kind, vector)) same,
                      ((ground arith, refl), wrote),
                      (good, checked),
                    )
            ]
    ]

-- The vectors of a commit are of a profile that accepts them.
pub record Built (a : Arithmetic) (job : IndexJob) (chunks : Option Chunks) (x : Index)
    (rows : List VectorRow) : Type 0 where
  pub contents : map content rows ≡ numbered 0 (payload chunks)
  pub owned : All (Writes job) rows
  pub accepted :
      (chunks ≡ none)
      ⊎ ((p : IndexProfile) × (get job.profile_id x ≡ ok p)
          × All (λ (v : VectorRow). validate_vector a p v.vector ≡ ok tt) rows)

new_vectors-Built :
    (a : Arithmetic) (job : IndexJob) (now : ℕ) (chunks : Option Chunks) (source : String)
    (src : Sources) (x : Index) (rows : List VectorRow)
    → new_vectors a job now chunks source src x ≡ ok rows
    → Built a job chunks x rows
new_vectors-Built a job now none source src x rows h =
    let e : [] ≡ rows = ground arith in
    subst (Built a job none x) e (record { contents = refl; owned = tt; accepted = inl refl })
new_vectors-Built a job now (some chunks) source src x rows h =
    elim (Result-cases (get job.profile_id x)) [
      | inl (e, bad) ↦ let no : ⊥ = ground (arith, bad) in absurd no
      | inr (p, found) ↦ elim (Result-cases (owner_type_id job.owner_kind job.owner_id src)) [
        | inl (e, bad) ↦ let no : ⊥ = ground (arith, found, bad) in absurd no
        | inr (type_id, typed) ↦
            let (contents, owned, accepted) =
              chunk_rows-kept (validate_vector a p) job type_id now source 0 chunks rows
                (ground (arith, found, typed)) in
            record { contents = contents; owned = owned; accepted = inr (p, found, accepted) }
      ]
    ]

All-mine :
    (job : IndexJob) (rows : List VectorRow)
    → All (Writes job) rows
    → All (λ v. is_vector_of job.profile_id job.owner_kind job.owner_id v ≡ true) rows
All-mine job rows a = All-map _ _ rows (λ v w. w.0) a

replace-vectors :
    (a : Arithmetic) (job : IndexJob) (chunks : Option Chunks) (x : Index) (rows : List VectorRow)
    → Built a job chunks x rows
    → let mine = is_vector_of job.profile_id job.owner_kind job.owner_id in
      (select mine (replace job rows x).vectors ≡ rows)
      × (delete_where mine (replace job rows x).vectors ≡ delete_where mine x.vectors)
replace-vectors a job chunks x rows built =
    let mine = is_vector_of job.profile_id job.owner_kind job.owner_id in
    let all_mine = All-mine job rows built.owned in
    (
      select-append mine rows (delete_where mine x.vectors)
          ∙ ap (◌++◌ (select mine rows))
              (select_none mine (delete_where mine x.vectors) (delete_where-All mine x.vectors))
          ∙ append-nil (select mine rows)
          ∙ select_all mine rows all_mine,
      delete_where-append mine rows (delete_where mine x.vectors) all_mine
          ∙ delete_where_twice mine x.vectors,
    )

-- The owner of the job is alive at its revision, or deleted where the job deletes.
abbrev pub AtLive : IndexJob → Sources → Type 0
AtLive job src =
    (deleted : Bool) × (owner_revision job.owner_kind job.owner_id src
      ≡ some (job.owner_revision, deleted))
    × (fits_operation job.operation deleted ≡ true)

is_live_revision-AtLive :
    (job : IndexJob) (src : Sources) → is_live_revision job src ≡ true → AtLive job src
is_live_revision-AtLive job src h =
    elim (Option-cases (owner_revision job.owner_kind job.owner_id src)) [
      | inl missing ↦ let no : ⊥ = ground (arith, missing) in absurd no
      | inr ((revision, deleted), found) ↦
          let same : revision ≡ job.owner_revision = ground (arith, found) in
          (deleted, found ∙ ap (λ r. some (r, deleted)) same, ground (arith, found))
    ]

-- A successful commit replaces the owner's vectors, under a lease and at the live revision.
pub commit_chunks-replace :
    (a : Arithmetic) (job : IndexJob) (now : ℕ) (chunks : Option Chunks) (source : String)
    (src : Sources) (x : Index)
    → (commit_chunks a job now chunks source src x).1 ≡ ok true
    → (rows : List VectorRow) × (new_vectors a job now chunks source src x ≡ ok rows)
      × (under_lease job now x ≡ true)
      × (is_live_revision job src ≡ true)
      × (replace job rows x ≡ (commit_chunks a job now chunks source src x).0)
unfolding commit_chunks
commit_chunks-replace a job now chunks source src x h = elim (Bool-cases (under_lease job now x)) [
  | inr lost ↦ let no : ⊥ = ground (arith) in absurd no
  | inl holds ↦ elim (Bool-cases (is_live_revision job src)) [
    | inr old ↦ let no : ⊥ = ground (arith) in absurd no
    | inl live ↦ elim (Bool-cases (payload_fits job.operation chunks)) [
      | inr wrong ↦ let no : ⊥ = ground (arith) in absurd no
      | inl fits ↦ elim (Bool-cases (lacks_chunks job chunks)) [
        | inl empty ↦ let no : ⊥ = ground (arith) in absurd no
        | inr given ↦ elim (Bool-cases (bad_attachment job chunks src)) [
          | inl bad ↦ let no : ⊥ = ground (arith) in absurd no
          | inr good ↦ elim (Result-cases (new_vectors a job now chunks source src x)) [
            | inl (e, failed) ↦ let no : ⊥ = ground (arith, failed) in absurd no
            | inr (rows, made) ↦
                (rows, made, holds, live, rw (holds, live, fits, given, good, made) refl)
          ]
        ]
      ]
    ]
  ]
]

-- What a successful commit leaves in `x'`.
abbrev pub Committed :
    Arithmetic → IndexJob → ℕ → Option Chunks → String → Sources → Index → Index → Type 0
Committed a job now chunks source src x x' =
    let mine = is_vector_of job.profile_id job.owner_kind job.owner_id in
    (under_lease job now x ≡ true)
    × AtLive job src
    × Built a job chunks x (select mine x'.vectors)
    × (delete_where mine x'.vectors ≡ delete_where mine x.vectors)

-- A commit succeeds only under a running lease and at the live revision of its owner. The owner's
-- vectors in the profile are then exactly the chunks of the call, each under its position in the call
-- as chunk index, at that revision, each accepted by the profile, and the vectors of every other owner
-- and profile are what they were.
pub commit_chunks_exact :
    (a : Arithmetic) (job : IndexJob) (now : ℕ) (chunks : Option Chunks) (source : String)
    (src : Sources) (x : Index)
    → (commit_chunks a job now chunks source src x).1 ≡ ok true
    → Committed a job now chunks source src x (commit_chunks a job now chunks source src x).0
commit_chunks_exact a job now chunks source src x h =
    let (rows, made, holds, live, done) = commit_chunks-replace a job now chunks source src x h in
    let built = new_vectors-Built a job now chunks source src x rows made in
    let (mine, others) = replace-vectors a job chunks x rows built in
    subst (Committed a job now chunks source src x) done (
      holds,
      is_live_revision-AtLive job src live,
      subst (Built a job chunks x) (sym mine) built,
      others,
    )
