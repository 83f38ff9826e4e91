-- ===== src/Index/Trace.antt =====
-- Sequences of operations on the index, with the changes that other components make to its sources.
use mcpmem.Prelude.{ℕ, Bool, String, Option, List, [], ◌∷◌}
use mcpmem.Index.Records.{Index, Sources, IndexJob, IndexProfile, OwnerKind, ChunkKind}
use mcpmem.Index.{enqueue_chunk_change, claim_due, renew, retry}
use mcpmem.Index.Scan.{verify_full_scan, mark_published}
use mcpmem.Index.Profiles.{Arithmetic, begin_rebuild, fail_rebuild, activate}
use mcpmem.Index.Commit.{commit_chunks}

pub data Op : Type 0 where
  enqueues : OwnerKind → ℕ → ℕ → Bool → Op
  claims : ℕ → ℕ → ℕ → Op
  renews : IndexJob → ℕ → ℕ → Op
  retries : IndexJob → ℕ → ℕ → String → Bool → Op
  commits : IndexJob → ℕ → Option (List (ChunkKind × List ℕ)) → String → Op
  rebuilds : IndexProfile → Op
  fails : ℕ → String → Op
  activates : ℕ → Op
  scans : ℕ → Op
  publishes : ℕ → ℕ → Op
  edits : Sources → Op

unfoldable pub step : Arithmetic → Op → Index × Sources → Index × Sources
step a (enqueues kind id revision deleted) (x, src) =
    (enqueue_chunk_change kind id revision deleted x, src)
step a (claims token now duration) (x, src) = ((claim_due token now duration x).0, src)
step a (renews job now duration) (x, src) = ((renew job now duration x).0, src)
step a (retries job now next error is_dead) (x, src) = ((retry job now next error is_dead x).0, src)
step a (commits job now chunks source) (x, src) =
    ((commit_chunks a job now chunks source src x).0, src)
step a (rebuilds p) (x, src) = (begin_rebuild a p x src).0
step a (fails candidate reason) (x, src) = ((fail_rebuild candidate reason x).0, src)
step a (activates candidate) (x, src) = ((activate candidate src x).0, src)
step a (scans profile) (x, src) = ((verify_full_scan profile src x).0, src)
step a (publishes profile generation) (x, src) = ((mark_published profile generation x).0, src)
step a (edits src') (x, src) = (x, src')

unfoldable pub run : Arithmetic → List Op → Index × Sources → Index × Sources
run a [] w = w
run a (op ∷ ops) w = run a ops (step a op w)
