-- ===== src/Index/Profiles/Machine.antt =====
-- crates/mcpmem-core/src/jobs.rs: the registry as a state machine over `StoreState`.
use mcpmem.Prelude.{
  ℕ, ◌≡◌, ◌≢◌, refl, sym, ap, ◌∙◌, subst, false, ◌&&◌, String, Option, none, some, List, [], ◌∷◌,
  arith, inl, inr, Bool-cases, Result, ok, Result-cases, ◌==◌, nat_eq, if_case, if◌then◌else◌,
}
use mcpmem.Events.Records.{CoreError, token_eq, first_chars}
use mcpmem.Index.Records.{
  Index, Sources, IndexProfile, Registry, RegistryState, registry_state_eq, StoreState, upsert,
  delete,
}
use mcpmem.Index.{enqueue_chunk_change, serving_profile_ids, is_rebuilding}
use mcpmem.Index.Scan.{mark_published}
use mcpmem.Index.Profiles.{
  Arithmetic, state, read_state, serving_of, in_rebuild, is_taken, rebuilds, begin_rebuild, rebuild,
  fail_rebuild, activate, may_activate, fingerprint, get,
}
use mcpmem.Index.Profiles.Untouched.{
  enqueue_for-registry, claim_due-registry, renew-registry, retry-registry, commit_chunks-registry,
  verify_full_scan-registry,
}
use mcpmem.Index.Profiles.Activation.{rebuilds-read}
use mcpmem.Index.Trace.{Op, step, run}
use mcpmem.Index.Trace

-- An operation may leave the state as it is; the failure of a rebuild only where that rebuild does not
-- run.
abbrev pub MayStay : Op → StoreState → Type 0
MayStay (Trace.fails candidate reason) s =
    (serving : Option ℕ) → s ≢ StoreState.rebuilding serving candidate
MayStay (Trace.activates _) s = Unit
MayStay _ s = Unit

-- What an operation may make of the store: a request for a rebuild into a profile that does not serve
-- starts it where none runs; a failure of the profile that is being built ends its rebuild, and the
-- serving profile stays; an activation of the profile that is being built makes it the serving one.
pub data Moves : Op → StoreState → StoreState → Type 0 where
  starts :
      (p : IndexProfile) (s : StoreState)
      → in_rebuild s ≡ false
      → serving_of s ≢ some p.id
      → Moves (Trace.rebuilds p) s (StoreState.rebuilding (serving_of s) p.id)
  fails :
      (serving : Option ℕ) (candidate : ℕ) (reason : String)
      → Moves
          (Trace.fails candidate reason)
          (StoreState.rebuilding serving candidate)
          (StoreState.failed serving candidate (first_chars 2048 reason))
  activates :
      (serving : Option ℕ) (candidate : ℕ)
      → Moves
          (Trace.activates candidate)
          (StoreState.rebuilding serving candidate)
          (StoreState.active candidate)
  stays : (op : Op) (s : StoreState) → MayStay op s → Moves op s s

-- A move for each operation.
pub data Runs : List Op → StoreState → StoreState → Type 0 where
  rests : (s : StoreState) → Runs [] s s
  moves :
      {op : Op} {ops : List Op} {s t u : StoreState}
      → Moves op s t
      → Runs ops t u
      → Runs (op ∷ ops) s u

-- The registry reads as a state that the operation leads to.
abbrev Follows : Op → StoreState → Registry → Type 0
Follows op s r = (s' : StoreState) × (state r ≡ ok s') × Moves op s s'

same :
    (op : Op) (s : StoreState) (r r' : Registry)
    → MayStay op s
    → state r ≡ ok s
    → r' ≡ r
    → Follows op s r'
same op s r r' may h e = (s, subst (λ q. state q ≡ ok s) (sym e) h, stays op s may)

-- A registry that reads, and names a state, has the columns of that state.
read-rebuilding :
    (serving candidate : Option ℕ) (failure : Option String) (s : StoreState)
    → read_state RegistryState.rebuilding serving candidate failure ≡ ok s
    → (c : ℕ) × (candidate ≡ some c) × (s ≡ StoreState.rebuilding serving c)
unfolding read_state
read-rebuilding none (some c) none s h = (c, refl, ground arith)
read-rebuilding (some p) (some c) none s h = (c, refl, ground arith)
read-rebuilding none none none s h = let no : ⊥ = ground arith in absurd no
read-rebuilding (some p) none none s h = let no : ⊥ = ground arith in absurd no
read-rebuilding none none (some f) s h = let no : ⊥ = ground arith in absurd no
read-rebuilding (some p) none (some f) s h = let no : ⊥ = ground arith in absurd no
read-rebuilding none (some c) (some f) s h = let no : ⊥ = ground arith in absurd no
read-rebuilding (some p) (some c) (some f) s h = let no : ⊥ = ground arith in absurd no

read_state-columns :
    (st : RegistryState) (serving candidate : Option ℕ) (failure : Option String) (s : StoreState)
    → read_state st serving candidate failure ≡ ok s
    → (serving_of s ≡ serving) × (in_rebuild s ≡ (st == RegistryState.rebuilding))
unfolding read_state
read_state-columns RegistryState.legacy_compat none none none s h = (ground arith, ground arith)
read_state-columns RegistryState.legacy_compat (some p) none none s h = (ground arith, ground arith)
read_state-columns RegistryState.legacy_compat none (some c) f s h = (ground arith, ground arith)
read_state-columns RegistryState.legacy_compat (some p) (some c) f s h =
    (ground arith, ground arith)
read_state-columns RegistryState.legacy_compat none none (some f) s h = (ground arith, ground arith)
read_state-columns RegistryState.legacy_compat (some p) none (some f) s h =
    (ground arith, ground arith)
read_state-columns RegistryState.active (some p) none none s h = (ground arith, ground arith)
read_state-columns RegistryState.active none candidate failure s h = (ground arith, ground arith)
read_state-columns RegistryState.active (some p) (some c) failure s h = (ground arith, ground arith)
read_state-columns RegistryState.active (some p) none (some f) s h = (ground arith, ground arith)
read_state-columns RegistryState.rebuilding serving candidate failure s h =
    let (c, is_c, is_s) = read-rebuilding serving candidate failure s h in
    (ground arith, ground arith)
read_state-columns RegistryState.failed none (some c) (some f) s h = (ground arith, ground arith)
read_state-columns RegistryState.failed (some p) (some c) (some f) s h =
    (ground arith, ground arith)
read_state-columns RegistryState.failed none none failure s h = (ground arith, ground arith)
read_state-columns RegistryState.failed (some p) none failure s h = (ground arith, ground arith)
read_state-columns RegistryState.failed none (some c) none s h = (ground arith, ground arith)
read_state-columns RegistryState.failed (some p) (some c) none s h = (ground arith, ground arith)

-- A registry that reads as the rebuild of a candidate is being rebuilt, with that candidate.
read_state-candidate :
    (st : RegistryState) (serving candidate : Option ℕ) (failure : Option String) (old : Option ℕ)
    (c : ℕ)
    → read_state st serving candidate failure ≡ ok (StoreState.rebuilding old c)
    → (st ≡ RegistryState.rebuilding) × (candidate ≡ some c)
read_state-candidate st serving candidate failure old c h =
    let columns = read_state-columns st serving candidate failure (StoreState.rebuilding old c) h in
    let is : st ≡ RegistryState.rebuilding = ground (arith, columns.1) in
    let (c', is_c, is_s) = read-rebuilding serving candidate failure (StoreState.rebuilding old c) (
      subst (λ q. read_state q serving candidate failure ≡ ok (StoreState.rebuilding old c)) is
        h) in
    (is, ground (arith, is_c, is_s))

-- A registry that a rebuild writes reads as the rebuild.
rebuilding-read :
    (serving : Option ℕ) (c : ℕ)
    → read_state RegistryState.rebuilding serving (some c) none
      ≡ ok (StoreState.rebuilding serving c)
unfolding read_state
rebuilding-read none c = refl
rebuilding-read (some p) c = refl

failed-read :
    (serving : Option ℕ) (c : ℕ) (reason : String)
    → read_state RegistryState.failed serving (some c) (some reason)
      ≡ ok (StoreState.failed serving c reason)
unfolding read_state
failed-read none c reason = refl
failed-read (some p) c reason = refl

begin_rebuild-Follows :
    (a : Arithmetic) (p : IndexProfile) (x : Index) (src : Sources) (s : StoreState)
    → state x.registry ≡ ok s
    → Follows (Trace.rebuilds p) s (begin_rebuild a p x src).0.0.registry
unfolding begin_rebuild
begin_rebuild-Follows a p x src s h = elim (Result-cases (fingerprint a p)) [
  | inl (e, bad) ↦ same (Trace.rebuilds p) s x.registry _ tt h (ground (arith, bad))
  | inr (fp, printed) ↦ elim (Bool-cases (in_rebuild s)) [
    | inl busy ↦ same (Trace.rebuilds p) s x.registry _ tt h (ground (arith, printed))
    | inr idle ↦ elim (Bool-cases (serving_of s == some p.id)) [
      | inl serves ↦ same (Trace.rebuilds p) s x.registry _ tt h (ground (arith, printed))
      | inr other ↦ elim (Bool-cases (is_taken p.id fp x)) [
        | inl taken ↦ same (Trace.rebuilds p) s x.registry _ tt h (ground (arith, printed))
        | inr free ↦
            let begun : (begin_rebuild a p x src).0.0.registry ≡ (rebuild p fp x src).0.registry =
              ground (arith, printed) in
            let kept =
              (read_state-columns x.registry.state x.registry.serving x.registry.candidate
                x.registry.failure s h).0 in
            (
              StoreState.rebuilding (serving_of s) p.id,
              ap state begun
                  ∙ subst
                      (λ q.
                        read_state RegistryState.rebuilding q (some p.id) none
                        ≡ ok (StoreState.rebuilding (serving_of s) p.id))
                      kept (rebuilding-read (serving_of s) p.id),
              starts p s idle (λ e. ground arith),
            )
      ]
    ]
  ]
]

fail_rebuild-Follows :
    (candidate : ℕ) (reason : String) (x : Index) (s : StoreState)
    → state x.registry ≡ ok s
    → Follows (Trace.fails candidate reason) s (fail_rebuild candidate reason x).0.registry
unfolding fail_rebuild
fail_rebuild-Follows candidate reason x s h =
    if_case
      (λ (q : Index × Result CoreError (Unit {0})).
        Follows (Trace.fails candidate reason) s q.0.registry)
      (is_rebuilding x.registry && x.registry.candidate == some candidate)
      (λ is.
        let in_it : x.registry.state ≡ RegistryState.rebuilding = ground arith in
        let (c, is_c, is_s) =
          read-rebuilding x.registry.serving x.registry.candidate x.registry.failure s (
            subst
              (λ q. read_state q x.registry.serving x.registry.candidate x.registry.failure ≡ ok s)
              in_it h) in
        let named : c ≡ candidate = ground (arith, is_c) in
        (
          StoreState.failed x.registry.serving c (first_chars 2048 reason),
          subst
              (λ q.
                read_state RegistryState.failed x.registry.serving q
                  (some (first_chars 2048 reason))
                ≡ ok (StoreState.failed x.registry.serving c (first_chars 2048 reason)))
              (sym is_c) (failed-read x.registry.serving c (first_chars 2048 reason)),
          subst
              (λ q.
                Moves (Trace.fails candidate reason) q
                  (StoreState.failed x.registry.serving c (first_chars 2048 reason)))
              (sym is_s)
              (subst
                (λ q.
                  Moves (Trace.fails q reason) (StoreState.rebuilding x.registry.serving c)
                    (StoreState.failed x.registry.serving c (first_chars 2048 reason)))
                named (fails x.registry.serving c reason)),
        ))
      (λ refused. (
        s,
        h,
        stays (Trace.fails candidate reason) s (λ serving is_s.
            let columns =
              read_state-candidate x.registry.state x.registry.serving x.registry.candidate
                x.registry.failure serving candidate (h ∙ ap ok is_s) in
            ground (arith, columns.0, columns.1, refused)),
      ))

activate-Follows :
    (candidate : ℕ) (src : Sources) (x : Index) (s : StoreState)
    → state x.registry ≡ ok s
    → Follows (Trace.activates candidate) s (activate candidate src x).0.registry
unfolding activate
activate-Follows candidate src x s h = elim (Result-cases (may_activate candidate src x)) [
  | inl (e, bad) ↦ same (Trace.activates candidate) s x.registry _ tt h (rw (bad, activate) refl)
  | inr (_, good) ↦ elim (Bool-cases (rebuilds candidate s)) [
    | inr other ↦ elim (Result-cases (get candidate x)) [
      | inl (e, missing) ↦ let no : ⊥ = ground (arith, missing) in absurd no
      | inr (p, found) ↦ let no : ⊥ = ground (arith, found) in absurd no
    ]
    | inl rebuilt ↦
        let (serving, is_s) = rebuilds-read candidate s rebuilt in
        rw (good, activate)
          (
            StoreState.active candidate,
            active-read candidate,
            subst (λ q. Moves (Trace.activates candidate) q (StoreState.active candidate))
                (sym is_s) (activates serving candidate),
          )
  ]
]
  where
    active-read :
        (c : ℕ) → read_state RegistryState.active (some c) none none ≡ ok (StoreState.active c)
    active-read c = unfold read_state in refl

step-Follows :
    (a : Arithmetic) (op : Op) (x : Index) (src : Sources) (s : StoreState)
    → state x.registry ≡ ok s
    → Follows op s (step a op (x, src)).0.registry
unfolding step mark_published
step-Follows a (Trace.enqueues kind id revision deleted) x src s h =
    same (Trace.enqueues kind id revision deleted) s x.registry _ tt h (
      unfold enqueue_chunk_change in
      enqueue_for-registry (serving_profile_ids x.registry) kind id revision
        (if deleted then delete else upsert) x)
step-Follows a (Trace.claims token now duration) x src s h =
    same (Trace.claims token now duration) s x.registry _ tt h
      (claim_due-registry token now duration x)
step-Follows a (Trace.renews job now duration) x src s h =
    same (Trace.renews job now duration) s x.registry _ tt h (renew-registry job now duration x)
step-Follows a (Trace.retries job now later error is_dead) x src s h =
    same (Trace.retries job now later error is_dead) s x.registry _ tt h
      (retry-registry job now later error is_dead x)
step-Follows a (Trace.commits job now chunks source) x src s h =
    same (Trace.commits job now chunks source) s x.registry _ tt h
      (commit_chunks-registry a job now chunks source src x)
step-Follows a (Trace.rebuilds p) x src s h = begin_rebuild-Follows a p x src s h
step-Follows a (Trace.fails candidate reason) x src s h =
    fail_rebuild-Follows candidate reason x s h
step-Follows a (Trace.activates candidate) x src s h = activate-Follows candidate src x s h
step-Follows a (Trace.scans profile) x src s h =
    same (Trace.scans profile) s x.registry _ tt h (verify_full_scan-registry profile src x)
step-Follows a (Trace.publishes profile generation) x src s h =
    (s, h, stays (Trace.publishes profile generation) s tt)
step-Follows a (Trace.edits src') x src s h = (s, h, stays (Trace.edits src') s tt)

-- From a registry that can be read, any sequence of operations on the index, with any changes to its
-- sources in between, leaves one that can be read, and each operation is a move of the machine: only
-- a request for a rebuild starts one, of its own profile, where none runs and where that profile does
-- not serve; only an activation of the profile that is being built makes a profile the active one; the
-- failure of the profile that is being built always ends its rebuild; nothing else changes the state.
pub run_refines :
    (a : Arithmetic) (ops : List Op) (x : Index) (src : Sources) (s : StoreState)
    → state x.registry ≡ ok s
    → (s' : StoreState) × (state (run a ops (x, src)).0.registry ≡ ok s') × Runs ops s s'
unfolding run
run_refines a [] x src s h = (s, h, rests s)
run_refines a (op ∷ ops) x src s h =
    let w = step a op (x, src) in
    let (t, h', m) = step-Follows a op x src s h in
    let (s', last, more) = run_refines a ops w.0 w.1 t h' in (s', last, moves m more)
