-- ===== src/Events/Exclusive.antt =====
-- At most one delivery of a subscription is under a running lease.
use mcpmem.Prelude.{
  earliest, earliest-test, earliest-Keyed, ℕ, ℕ_discrete, ◌≤◌, ◌≡◌, refl, Bool, true, false, ◌&&◌,
  some, List, [], ◌∷◌, arith, Option-cases, inl, inr, ◌==◌, nat_eq, update_where, exists_where,
  count_where, if_case, Keyed, Keyed-update, Keyed-insert, count_where-key, count_where-none,
  count_where_mono, count_where-rewritten, count_where-update, count_where-rows, subst, sym,
  All-map, String,
}
use mcpmem.Events.Records.{Outbox, Delivery, new_delivery, done, state_eq}
use mcpmem.Events.{
  before, busy, enqueue_delivery, insert_delivery, claim_due, complete, retry, completes, retries,
  lease_row, retry_row, get, eligible,
}
use mcpmem.Events.Choice.{claim_due-cases}
use mcpmem.Events.Trace.{Op, enqueues, claims, step, run}
use mcpmem.Events.Trace

-- At the time `t` no subscription has two running leases; the delivery identifiers are distinct.
pub record Exclusive (t : ℕ) (s : Outbox) : Type 0 where
  pub single : (sub : ℕ) → count_where (busy t sub) s.deliveries ≤ 1
  pub keyed : Keyed (λ (d : Delivery). d.delivery_id) s.deliveries

Exclusive-later : (t now : ℕ) (s : Outbox) → t ≤ now → Exclusive t s → Exclusive now s
Exclusive-later t now s le v = record {
  single = λ sub. omega (
    arith,
    v.single sub,
    count_where_mono (busy now sub) (busy t sub) s.deliveries (λ d h. ground arith),
  );
  keyed = v.keyed;
}

-- The chosen row's subscription has no running lease, so one more is the first.
claim-single :
    (token now until : ℕ) (row : Delivery) (ds : List Delivery) (sub : ℕ)
    → earliest before (eligible now ds) ds ≡ some row
    → Keyed (λ (d : Delivery). d.delivery_id) ds
    → count_where (busy now sub) ds ≤ 1
    → count_where
        (busy now sub)
        (update_where (λ r. r.delivery_id == row.delivery_id) (lease_row token until) ds)
      ≤ 1
claim-single token now until row ds sub chosen keyed one =
    elim (ℕ_discrete row.subscription_id sub) [
      | yes same ↦
          let free : exists_where (busy now row.subscription_id) ds ≡ false =
            ground (arith, earliest-test before (eligible now ds) ds row chosen) in
          omega (
            arith,
            count_where-none (busy now sub) ds
                (subst (λ q. exists_where (busy now q) ds ≡ false) same free),
            count_where-rewritten (busy now sub) (λ r. r.delivery_id == row.delivery_id)
                (lease_row token until) ds,
            count_where-key (λ (d : Delivery). d.delivery_id) row.delivery_id ds keyed,
          )
      | no other ↦ omega (
        arith,
        one,
        count_where-rows (busy now sub) (λ r. r.delivery_id == row.delivery_id)
            (lease_row token until) ds
            (All-map _ _ ds (λ x only hit is_busy. ground (arith, only))
              (earliest-Keyed before (λ (d : Delivery). d.delivery_id) (λ d. d.subscription_id)
                (eligible now ds) ds row keyed chosen)),
      )
    ]

claim-Exclusive :
    (token now duration t : ℕ) (s : Outbox)
    → t ≤ now
    → Exclusive t s
    → Exclusive now (claim_due token now duration s).0
claim-Exclusive token now duration t s le v =
    let w = Exclusive-later t now s le v in
    elim (claim_due-cases token now duration s) [
      | inl (same, _) ↦ subst (Exclusive now) (sym same) w
      | inr (ed, c) ↦ record {
        single = λ sub.
            subst (λ ds. count_where (busy now sub) ds ≤ 1) (sym c.left)
              (claim-single token now c.until c.row s.deliveries sub c.chosen w.keyed
                (w.single sub));
        keyed = subst (Keyed (λ (d : Delivery). d.delivery_id)) (sym c.left) (
            Keyed-update (λ (d : Delivery). d.delivery_id) (λ r. r.delivery_id == c.row.delivery_id)
              (lease_row token c.until) s.deliveries (λ x _. refl) w.keyed);
      }
    ]

-- An UPDATE that leases nothing.
update-Exclusive :
    (t : ℕ) (test : Delivery → Bool) (set : Delivery → Delivery) (s : Outbox)
    → ((x : Delivery) → (set x).delivery_id ≡ x.delivery_id)
    → ((sub : ℕ) (x : Delivery) → test x ≡ true → busy t sub (set x) ≡ true → busy t sub x ≡ true)
    → Exclusive t s
    → Exclusive t (record s { deliveries = update_where test set s.deliveries })
update-Exclusive t test set s same calm v = record {
  single = λ sub.
      omega (arith, v.single sub, count_where-update (busy t sub) test set s.deliveries (calm sub));
  keyed =
      Keyed-update (λ (d : Delivery). d.delivery_id) test set s.deliveries (λ x _. same x) v.keyed;
}

retry_row-calm :
    (t next : ℕ) (error : String) (is_dead : Bool) (sub : ℕ) (x : Delivery)
    → busy t sub (retry_row next error is_dead x) ≡ false
retry_row-calm t next error true sub x = ground arith
retry_row-calm t next error false sub x = ground arith

enqueue-Exclusive :
    (t delivery event subscription : ℕ) (s : Outbox)
    → exists_where (λ d. d.delivery_id == delivery) s.deliveries ≡ false
    → Exclusive t s
    → Exclusive t (enqueue_delivery delivery event subscription s).0
unfolding enqueue_delivery insert_delivery
enqueue-Exclusive t delivery event subscription s fresh v = elim (Option-cases (get event s)) [
  | inl none_here ↦ rw (none_here, enqueue_delivery) v
  | inr (e, found) ↦
      rw (found, enqueue_delivery)
        (if_case (λ (q : Outbox × ℕ). Exclusive t q.0)
          (exists_where (λ d. d.event_id == event && d.subscription_id == subscription)
            s.deliveries)
          (λ _. v)
          (λ _. record {
            single = λ sub. ground (arith, v.single sub);
            keyed =
                Keyed-insert (λ (d : Delivery). d.delivery_id)
                  (new_delivery delivery event subscription) s.deliveries fresh v.keyed;
          }))
]

-- The clock that a step reads, where it reads one.
abbrev pub at_clock : ℕ → Op → ℕ
at_clock t (enqueues delivery event subscription) = t
at_clock t (claims token now duration) = now
at_clock t (Trace.completes d now) = now
at_clock t (Trace.retries d now next error is_dead) = now

-- Clocks run forwards, and every identifier drawn is new.
abbrev pub Admissible : ℕ → Outbox → Op → Type 0
Admissible t s (enqueues delivery event subscription) =
    exists_where (λ d. d.delivery_id == delivery) s.deliveries ≡ false
Admissible t s (claims token now duration) = t ≤ now
Admissible t s (Trace.completes d now) = t ≤ now
Admissible t s (Trace.retries d now next error is_dead) = t ≤ now

step-Exclusive :
    (t : ℕ) (op : Op) (s : Outbox)
    → Admissible t s op
    → Exclusive t s
    → Exclusive (at_clock t op) (step op s)
unfolding complete retry step
step-Exclusive t (enqueues delivery event subscription) s fresh v =
    enqueue-Exclusive t delivery event subscription s fresh v
step-Exclusive t (claims token now duration) s le v = claim-Exclusive token now duration t s le v
step-Exclusive t (Trace.completes d now) s le v =
    update-Exclusive now (completes d now) (λ r. record r { state = done }) s (λ _. refl)
      (λ sub x _ h. ground arith) (Exclusive-later t now s le v)
step-Exclusive t (Trace.retries d now next error is_dead) s le v =
    update-Exclusive now (retries d now) (retry_row next error is_dead) s (λ _. refl)
      (λ sub x _ h. ground (arith, retry_row-calm now next error is_dead sub x))
      (Exclusive-later t now s le v)

-- Each step of the trace is admissible where it stands.
abbrev pub Admitted : ℕ → List Op → Outbox → Type 0
Admitted t [] s = Unit
Admitted t (op ∷ ops) s = Admissible t s op × Admitted (at_clock t op) ops (step op s)

abbrev pub last_clock : ℕ → List Op → ℕ
last_clock t [] = t
last_clock t (op ∷ ops) = last_clock (at_clock t op) ops

-- If every identifier drawn is new and the clocks of the claims, completions and retries never run
-- backwards, then no sequence of these and of enqueues gives a subscription two running leases.
pub run-Exclusive :
    (t : ℕ) (ops : List Op) (s : Outbox)
    → Admitted t ops s
    → Exclusive t s
    → Exclusive (last_clock t ops) (run ops s)
unfolding run
run-Exclusive t [] s a v = v
run-Exclusive t (op ∷ ops) s (a, more) v =
    run-Exclusive (at_clock t op) ops (step op s) more (step-Exclusive t op s a v)
