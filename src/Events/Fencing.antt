-- ===== src/Events/Fencing.antt =====
-- crates/mcpmem-core/src/events.rs: a lease that another claim has superseded.
use mcpmem.Prelude.{
  earliest-Keyed, ℕ, ℕ_discrete, ◌+◌, ◌≤◌, ◌≡◌, ◌≢◌, refl, Bool, false, ◌&&◌, some, List, [], ◌∷◌,
  All, arith, Option-cases, inl, inr, ◌==◌, nat_eq, if_case, Keyed, All-map, All-update,
  exists_where, subst, sym, String, ok, count_where-All, update_where-none, update_where-again,
}
use mcpmem.Events.Records.{Outbox, Delivery, EventDelivery, new_delivery, done, state_eq}
use mcpmem.Events.{
  before, enqueue_delivery, insert_delivery, claim_due, complete, retry, completes, retries,
  lease_row, retry_row, get, eligible,
}
use mcpmem.Events.Choice.{claim_due-cases, claim_due-Claims}
use mcpmem.Events.Trace.{Op, enqueues, claims, step, run}
use mcpmem.Events.Trace

-- The identifiers that a trace draws for new rows avoid this one.
abbrev pub Avoids : ℕ → Op → Type 0
Avoids id (enqueues delivery event subscription) = delivery ≢ id
Avoids id (claims token now duration) = Unit
Avoids id (Trace.completes d now) = Unit
Avoids id (Trace.retries d now next error is_dead) = Unit

pub enqueue-All :
    (P : Delivery → Type 0) (delivery event subscription : ℕ) (s : Outbox)
    → P (new_delivery delivery event subscription)
    → All P s.deliveries
    → All P (enqueue_delivery delivery event subscription s).0.deliveries
unfolding enqueue_delivery insert_delivery
enqueue-All P delivery event subscription s p a = elim (Option-cases (get event s)) [
  | inl none_here ↦ rw (none_here, enqueue_delivery) a
  | inr (e, found) ↦
      rw (found, enqueue_delivery)
        (if_case (λ (q : Outbox × ℕ). All P q.0.deliveries)
          (exists_where (λ d. d.event_id == event && d.subscription_id == subscription)
            s.deliveries)
          (λ _. a) (λ _. (p, a)))
]

-- The rows of this identifier have reached the epoch.
abbrev pub Reached : ℕ → ℕ → Delivery → Type 0
Reached epoch id r = r.delivery_id ≡ id → epoch ≤ r.lease_epoch

step-Reached :
    (epoch id : ℕ) (op : Op) (s : Outbox)
    → Avoids id op
    → All (Reached epoch id) s.deliveries
    → All (Reached epoch id) (step op s).deliveries
unfolding complete retry step
step-Reached epoch id (enqueues delivery event subscription) s ne a =
    enqueue-All (Reached epoch id) delivery event subscription s (λ e. absurd (ne e)) a
step-Reached epoch id (claims token now duration) s _ a =
    elim (claim_due-cases token now duration s) [
      | inl (same, _) ↦ subst (λ (q : Outbox). All (Reached epoch id) q.deliveries) (sym same) a
      | inr (ed, c) ↦ subst (All (Reached epoch id)) (sym c.left) (
          All-update (Reached epoch id) (Reached epoch id) (λ r. r.delivery_id == c.row.delivery_id)
            (lease_row token c.until) s.deliveries (λ x f _ e. omega (arith, f e)) (λ x f _. f) a)
    ]
step-Reached epoch id (Trace.completes d now) s _ a =
    All-update (Reached epoch id) (Reached epoch id) (completes d now)
      (λ r. record r { state = done }) s.deliveries (λ x f _. f) (λ x f _. f) a
step-Reached epoch id (Trace.retries d now next error is_dead) s _ a =
    All-update (Reached epoch id) (Reached epoch id) (retries d now) (retry_row next error is_dead)
      s.deliveries (λ x f _. f) (λ x f _. f) a

run-Reached :
    (epoch id : ℕ) (ops : List Op) (s : Outbox)
    → All (Avoids id) ops
    → All (Reached epoch id) s.deliveries
    → All (Reached epoch id) (run ops s).deliveries
unfolding run
run-Reached epoch id [] s _ a = a
run-Reached epoch id (op ∷ ops) s (ne, more) a =
    run-Reached epoch id ops (step op s) more (step-Reached epoch id op s ne a)

claim_due-Reached :
    (token now duration : ℕ) (s : Outbox) (d : EventDelivery)
    → Keyed (λ (r : Delivery). r.delivery_id) s.deliveries
    → (claim_due token now duration s).1 ≡ ok (some d)
    → All (Reached d.lease.epoch d.delivery_id) (claim_due token now duration s).0.deliveries
claim_due-Reached token now duration s d keyed h =
    let c = claim_due-Claims token now duration s d h in
    let only =
      earliest-Keyed before (λ (d : Delivery). d.delivery_id) (λ r. r.lease_epoch)
        (eligible now s.deliveries) s.deliveries c.row keyed c.chosen in
    subst (All (Reached d.lease.epoch d.delivery_id)) (sym c.left) (
      All-update _ _ (λ r. r.delivery_id == c.row.delivery_id) (lease_row token c.until)
        s.deliveries (λ x f hit e. ground (arith, f, c.handed))
        (λ x f miss e. ground (arith, c.handed)) only)

-- A later claim of the same delivery goes beyond the epoch.
claim_due-Passed :
    (epoch token now duration : ℕ) (s : Outbox) (d : EventDelivery)
    → All (Reached epoch d.delivery_id) s.deliveries
    → (claim_due token now duration s).1 ≡ ok (some d)
    → All (Reached (epoch + 1) d.delivery_id) (claim_due token now duration s).0.deliveries
claim_due-Passed epoch token now duration s d a h =
    let c = claim_due-Claims token now duration s d h in
    subst (All (Reached (epoch + 1) d.delivery_id)) (sym c.left) (
      All-update _ _ (λ r. r.delivery_id == c.row.delivery_id) (lease_row token c.until)
        s.deliveries (λ x f hit e. omega (arith, f e)) (λ x f miss e. ground (arith, c.handed)) a)

Reached-void :
    (d : EventDelivery) (now next : ℕ) (error : String) (is_dead : Bool) (s : Outbox)
    → All (Reached (d.lease.epoch + 1) d.delivery_id) s.deliveries
    → (complete d now s ≡ (s, false)) × (retry d now next error is_dead s ≡ (s, false))
unfolding complete retry ℕ_discrete
Reached-void d now next error is_dead s a =
    let first : All (λ r. completes d now r ≡ false) s.deliveries =
      All-map _ _ s.deliveries (λ r f. ground (arith, f)) a in
    let second : All (λ r. retries d now r ≡ false) s.deliveries =
      All-map _ _ s.deliveries (λ r f. ground (arith, f)) a in
    (
      rw
          (
            update_where-none (completes d now) (λ r. record r { state = done }) s.deliveries first,
            count_where-All (completes d now) s.deliveries first,
          )
          refl,
      rw
          (
            update_where-none (retries d now) (retry_row next error is_dead) s.deliveries second,
            count_where-All (retries d now) s.deliveries second,
          )
          refl,
    )

-- In an outbox with distinct delivery identifiers, once a claim has handed out a delivery that an
-- earlier claim handed out, the earlier lease can neither complete nor retry it, whatever operations
-- ran between and after the claims, if none of their enqueues draws its identifier again: both calls
-- return false and change no row.
pub superseded_lease_void :
    (token now duration : ℕ) (s : Outbox) (d : EventDelivery) (ops : List Op)
    (token' now' duration' : ℕ) (d' : EventDelivery) (more : List Op) (at next : ℕ) (error : String)
    (is_dead : Bool)
    → Keyed (λ (r : Delivery). r.delivery_id) s.deliveries
    → (claim_due token now duration s).1 ≡ ok (some d)
    → All (Avoids d.delivery_id) ops
    → (claim_due token' now' duration' (run ops (claim_due token now duration s).0)).1
      ≡ ok (some d')
    → d'.delivery_id ≡ d.delivery_id
    → All (Avoids d.delivery_id) more
    → let s' =
        run more (claim_due token' now' duration' (run ops (claim_due token now duration s).0)).0 in
      (complete d at s' ≡ (s', false)) × (retry d at next error is_dead s' ≡ (s', false))
superseded_lease_void token now duration s d ops token' now' duration' d' more at next error is_dead
      keyed first avoid second same avoid' =
    let s₁ = run ops (claim_due token now duration s).0 in
    let s₂ = (claim_due token' now' duration' s₁).0 in
    let reached =
      run-Reached d.lease.epoch d.delivery_id ops (claim_due token now duration s).0 avoid
        (claim_due-Reached token now duration s d keyed first) in
    let passed =
      claim_due-Passed d.lease.epoch token' now' duration' s₁ d'
        (subst (λ id. All (Reached d.lease.epoch id) s₁.deliveries) (sym same) reached) second in
    Reached-void d at next error is_dead (run more s₂) (
      run-Reached (d.lease.epoch + 1) d.delivery_id more s₂ avoid'
        (subst (λ id. All (Reached (d.lease.epoch + 1) id) s₂.deliveries) same passed))

-- Completing again at a later time changes nothing and gives the same answer.
pub complete_idempotent :
    (d : EventDelivery) (now later : ℕ) (s : Outbox)
    → now ≤ later
    → complete d later (complete d now s).0 ≡ complete d now s
unfolding complete
complete_idempotent d now later s le =
    let (rows, number) =
      update_where-again (completes d now) (completes d later) (λ r. record r { state = done })
        s.deliveries (λ _ _. refl) (λ x h. ground arith) (λ x h. ground arith) in
    rw (rows, number) refl
