-- ===== src/Events/Finished.antt =====
-- crates/mcpmem-core/src/events.rs: a delivery that is done or dead stays so and is not claimed.
use mcpmem.Prelude.{
  earliest-test, earliest-All, ℕ, ◌≡◌, ◌≢◌, true, some, List, [], ◌∷◌, All, arith, inl, inr, ◌⊎◌,
  ◌==◌, nat_eq, All-update, subst, sym, ok,
}
use mcpmem.Events.Records.{Outbox, Delivery, EventDelivery, DeliveryState, done, dead, state_eq}
use mcpmem.Events.{
  before, claim_due, complete, retry, completes, retries, lease_row, retry_row, eligible,
}
use mcpmem.Events.Choice.{Claims, claim_due-cases, claim_due-Claims}
use mcpmem.Events.Trace.{Op, enqueues, claims, step, run}
use mcpmem.Events.Trace
use mcpmem.Events.Fencing.{Avoids, enqueue-All}

-- The rows of this identifier stand in this state.
abbrev pub Stands : DeliveryState → ℕ → Delivery → Type 0
Stands state id r = r.delivery_id ≡ id → r.state ≡ state

abbrev pub Final : DeliveryState → Type 0
Final state = (state ≡ done) ⊎ (state ≡ dead)

-- A row of a finished delivery is not eligible.
eligible-Final :
    (state : DeliveryState) (now : ℕ) (ds : List Delivery) (r : Delivery)
    → Final state
    → eligible now ds r ≡ true
    → r.state ≢ state
eligible-Final state now ds r (inl e) h same = ground arith
eligible-Final state now ds r (inr e) h same = ground arith

Claims-other :
    (state : DeliveryState) (id token now duration : ℕ) (s : Outbox) (d : EventDelivery)
    → Final state
    → All (Stands state id) s.deliveries
    → (c : Claims token now duration s d) → c.row.delivery_id ≢ id
Claims-other state id token now duration s d final a c same =
    eligible-Final state now s.deliveries c.row final
      (earliest-test before (eligible now s.deliveries) s.deliveries c.row c.chosen)
      (earliest-All before (Stands state id) (eligible now s.deliveries) s.deliveries c.row a
        c.chosen same)

step-Stands :
    (state : DeliveryState) (id : ℕ) (op : Op) (s : Outbox)
    → Final state
    → Avoids id op
    → All (Stands state id) s.deliveries
    → All (Stands state id) (step op s).deliveries
unfolding complete retry step
step-Stands state id (enqueues delivery event subscription) s _ ne a =
    enqueue-All (Stands state id) delivery event subscription s (λ e. absurd (ne e)) a
step-Stands state id (claims token now duration) s final _ a =
    elim (claim_due-cases token now duration s) [
      | inl (same, _) ↦ subst (λ (q : Outbox). All (Stands state id) q.deliveries) (sym same) a
      | inr (ed, c) ↦
          let other = Claims-other state id token now duration s ed final a c in
          subst (All (Stands state id)) (sym c.left) (
            All-update (Stands state id) (Stands state id) (λ r. r.delivery_id == c.row.delivery_id)
              (lease_row token c.until) s.deliveries (λ x f hit e. ground (arith, other))
              (λ x f _. f) a)
    ]
step-Stands state id (Trace.completes d now) s (inl final) _ a =
    All-update (Stands state id) (Stands state id) (completes d now)
      (λ r. record r { state = done }) s.deliveries (λ x f hit e. sym final) (λ x f _. f) a
step-Stands state id (Trace.completes d now) s (inr final) _ a =
    All-update (Stands state id) (Stands state id) (completes d now)
      (λ r. record r { state = done }) s.deliveries
      (λ x f hit e. let no : ⊥ = ground (arith, f e) in absurd no) (λ x f _. f) a
step-Stands state id (Trace.retries d now next error is_dead) s (inl final) _ a =
    All-update (Stands state id) (Stands state id) (retries d now) (retry_row next error is_dead)
      s.deliveries (λ x f hit e. let no : ⊥ = ground (arith, f e) in absurd no) (λ x f _. f) a
step-Stands state id (Trace.retries d now next error is_dead) s (inr final) _ a =
    All-update (Stands state id) (Stands state id) (retries d now) (retry_row next error is_dead)
      s.deliveries (λ x f hit e. let no : ⊥ = ground (arith, f e) in absurd no) (λ x f _. f) a

run-Stands :
    (state : DeliveryState) (id : ℕ) (ops : List Op) (s : Outbox)
    → Final state
    → All (Avoids id) ops
    → All (Stands state id) s.deliveries
    → All (Stands state id) (run ops s).deliveries
unfolding run
run-Stands state id [] s _ _ a = a
run-Stands state id (op ∷ ops) s final (ne, more) a =
    run-Stands state id ops (step op s) final more (step-Stands state id op s final ne a)

-- If the rows of an identifier are done (or are dead), they are still so after any operations whose
-- enqueues do not draw the identifier again, and no claim after them hands out that delivery.
pub finished_stays :
    (state : DeliveryState) (id : ℕ) (ops : List Op) (s : Outbox) (token now duration : ℕ)
    → Final state
    → All (Avoids id) ops
    → All (Stands state id) s.deliveries
    → All (Stands state id) (run ops s).deliveries
      × ((d : EventDelivery)
          → (claim_due token now duration (run ops s)).1 ≡ ok (some d)
          → d.delivery_id ≢ id)
finished_stays state id ops s token now duration final avoid a =
    let kept = run-Stands state id ops s final avoid a in
    (
      kept,
      λ d h same.
          let c = claim_due-Claims token now duration (run ops s) d h in
          Claims-other state id token now duration (run ops s) d final kept c
            (ground (arith, c.handed)),
    )
