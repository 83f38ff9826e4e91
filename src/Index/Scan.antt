-- ===== src/Index/Scan.antt =====
-- crates/mcpmem-core/src/jobs.rs: verify_vectors_current and the generations of a profile's vectors.
-- A LEFT JOIN on a primary key is the one row that a lookup finds, or none.
use mcpmem.Prelude.{
  ℕ, Bool, true, false, ◌&&◌, ◌||◌, not, Option, none, some, List, ◌==◌, nat_eq, text_eq, Result,
  ok, err, ◌>>◌, refuse_if, first_where, exists_where, count_where, update_where,
}
use mcpmem.Events.Records.{CoreError, invalid_params, DeliveryState, state_eq}
use mcpmem.Attachments.Records.{Attachment, Segment, ExtractionJob, ready, status_eq}
use mcpmem.Index.Records.{
  OwnerKind, entity, relation, attachment, owner_kind_eq, ChunkKind, chunk_kind_eq, done, dead,
  job_state_eq, JobRow, VectorRow, AnnGeneration, Index, Sources, EntityRow, RevisionRow,
  RelationRow,
}
use mcpmem.Index.{is_job, is_vector_of}

abbrev pub is_vector : ℕ → ChunkKind → OwnerKind → ℕ → VectorRow → Bool
is_vector profile kind owner_kind id v = is_vector_of profile owner_kind id v && v.kind == kind

abbrev pub is_dead_job : ℕ → OwnerKind → ℕ → JobRow → Bool
is_dead_job profile kind id j = is_job profile kind id j && j.state == dead

-- LEFT JOIN: no vector at all, or one of another revision.
abbrev pub is_stale : (VectorRow → Bool) → ℕ → List VectorRow → Bool
is_stale test revision vs =
    not (exists_where test vs)
    || exists_where (λ v. test v && not (v.owner_revision == revision)) vs

abbrev pub revision_missing : ℕ → Index → EntityRow → RevisionRow → Bool
revision_missing profile x e r =
    r.entity_id == e.id
    && (not (exists_where (is_dead_job profile entity e.id) x.jobs)
        && is_stale (is_vector profile ChunkKind.identity entity e.id) r.revision x.vectors)

abbrev pub entity_missing : ℕ → Index → List RevisionRow → EntityRow → Bool
entity_missing profile x revisions e =
    e.flags == 0 && exists_where (revision_missing profile x e) revisions

abbrev pub entity_orphan : ℕ → List EntityRow → VectorRow → Bool
entity_orphan profile entities v =
    v.profile_id == profile
    && v.owner_kind == entity
    && elim (first_where (λ e. e.id == v.owner_id) entities) [
      | none ↦ true
      | some e ↦ not (e.flags == 0)
    ]

abbrev pub relation_missing : ℕ → Index → RelationRow → Bool
relation_missing profile x m =
    not m.deleted
    && (not (exists_where (is_dead_job profile relation m.id) x.jobs)
        && is_stale (is_vector profile ChunkKind.relation relation m.id) m.revision x.vectors)

abbrev pub relation_orphan : ℕ → List RelationRow → VectorRow → Bool
relation_orphan profile relations v =
    v.profile_id == profile
    && v.owner_kind == relation
    && elim (first_where (λ m. m.id == v.owner_id) relations) [ none ↦ true | some m ↦ m.deleted ]

-- JOIN entity, JOIN entity_revision: the attachment's entity lives.
abbrev pub owner_lives : Sources → Attachment → Bool
owner_lives src a =
    exists_where
      (λ e.
        e.id == a.entity_id
        && e.flags == 0
        && exists_where (λ r. r.entity_id == e.id && not r.deleted) src.revisions)
      src.entities

abbrev pub is_text_of : ℕ → Segment → Bool
is_text_of id c = c.attachment_id == id && not (c.text == "")

abbrev pub attachment_unfinished : ℕ → Index → Sources → Attachment → Bool
attachment_unfinished profile x src a =
    a.status == ready
    && owner_lives src a
    && elim (first_where (is_job profile attachment a.id) x.jobs) [
      | none ↦ true
      | some j ↦
          not (j.owner_revision == a.revision)
          || (not (j.state == dead)
              && (not (j.state == done)
                  || not (
                      count_where (is_text_of a.id) src.segments
                      == count_where (is_vector_of profile attachment a.id) x.vectors)))
          || (j.state == dead && exists_where (is_vector_of profile attachment a.id) x.vectors)
    ]

abbrev pub segment_missing : ℕ → Index → Sources → Segment → Bool
segment_missing profile x src c =
    not (c.text == "")
    && exists_where
        (λ a.
          a.id == c.attachment_id
          && a.status == ready
          && exists_where
              (λ e.
                e.id == a.entity_id
                && e.flags == 0
                && exists_where (λ r. r.entity_id == e.id && not r.deleted) src.revisions
                && exists_where (λ j. is_job profile attachment a.id j && not (j.state == dead))
                    x.jobs
                && not (
                    exists_where
                      (λ v.
                        is_vector profile ChunkKind.attachment attachment a.id v
                        && v.chunk_index == c.chunk_index
                        && v.owner_revision == a.revision
                        && v.type_id == e.type_id)
                      x.vectors))
              src.entities)
        src.attachments

abbrev pub attachment_orphan : ℕ → Sources → VectorRow → Bool
attachment_orphan profile src v =
    v.profile_id == profile
    && v.owner_kind == attachment
    && elim (first_where (λ a. a.id == v.owner_id) src.attachments) [
      | none ↦ true
      | some a ↦
          not (a.status == ready)
          || not (v.kind == ChunkKind.attachment)
          || not (v.owner_revision == a.revision)
          || elim (first_where (λ e. e.id == a.entity_id) src.entities) [
            | none ↦ true
            | some e ↦
                not (e.flags == 0)
                || not (v.type_id == e.type_id)
                || elim (first_where (λ r. r.entity_id == e.id) src.revisions) [
                  | none ↦ false
                  | some r ↦ r.deleted
                ]
          ]
          || elim (first_where (λ c. c.attachment_id == a.id && c.chunk_index == v.chunk_index)
              src.segments) [ none ↦ true | some c ↦ c.text == "" ]
    ]

abbrev pub is_unfinished : ℕ → JobRow → Bool
is_unfinished profile j = j.profile_id == profile && not (j.state == done) && not (j.state == dead)

abbrev pub is_extracting : ExtractionJob → Bool
is_extracting j = j.state == DeliveryState.pending || j.state == DeliveryState.leased

unfoldable pub scan_invalid : ℕ → Sources → Index → Bool
scan_invalid profile src x =
    exists_where (entity_missing profile x src.revisions) src.entities
    || exists_where (entity_orphan profile src.entities) x.vectors
    || exists_where (relation_missing profile x) src.relations
    || exists_where (relation_orphan profile src.relations) x.vectors
    || exists_where (attachment_unfinished profile x src) src.attachments
    || exists_where (segment_missing profile x src) src.segments
    || exists_where (attachment_orphan profile src) x.vectors
    || exists_where is_extracting src.extraction
    || exists_where (is_unfinished profile) x.jobs

abbrev pub verify_vectors_current : ℕ → Sources → Index → Result CoreError (Unit {0})
verify_vectors_current profile src x = refuse_if (scan_invalid profile src x) invalid_params

abbrev pub generation_of : ℕ → Index → Option AnnGeneration
generation_of profile x = first_where (λ g. g.profile_id == profile) x.generations

unfoldable pub verify_full_scan : ℕ → Sources → Index → Index × Result CoreError (Unit {0})
unfolding scan_invalid
verify_full_scan profile src x =
    elim (verify_vectors_current profile src x
      >> refuse_if (not (count_where (λ g. g.profile_id == profile) x.generations == 1))
          invalid_params) [
            | err e ↦ (x, err e)
            | ok _ ↦ (
              record x {
                generations =
                    update_where (λ g. g.profile_id == profile)
                      (λ g. record g { full_scan_generation = some g.durable_generation })
                      x.generations;
              },
              ok tt,
            )
          ]

unfoldable pub mark_published : ℕ → ℕ → Index → Index × Bool
mark_published profile generation x = (
  record x {
    generations =
        update_where (λ g. g.profile_id == profile && g.durable_generation == generation)
          (λ g. record g { published_generation = some generation }) x.generations;
  },
  count_where (λ g. g.profile_id == profile && g.durable_generation == generation) x.generations
      == 1,
)
