-- ===== src/Events/Holding.antt =====
-- crates/mcpmem-core/src/events.rs: what the holder of a running lease can do.
use mcpmem.Prelude.{
  earliest-Keyed, earliest-count, ℕ, ◌<◌, ◌≡◌, refl, sym, subst, Bool, true, some, All, arith, ◌==◌,
  nat_eq, update_where, count_where, Keyed, All-map, All-update, String, ok, count_where-key,
  count_where-same, count_where-kept, if◌then◌else◌,
}
use mcpmem.Events.Records.{Outbox, Delivery, EventDelivery, leased, done, dead, pending, state_eq}
use mcpmem.Events.{
  claim_due, complete, retry, completes, retries, lease_row, retry_row, eligible, before,
}
use mcpmem.Events.Choice.{claim_due-Claims}

abbrev pub HeldBy : EventDelivery → Delivery → Type 0
HeldBy d r =
    r.delivery_id ≡ d.delivery_id
    → (r.state ≡ leased)
      × (r.lease_token ≡ some d.lease.token)
      × (r.lease_epoch ≡ d.lease.epoch)
      × (r.lease_until_us ≡ d.lease.until_us)

-- The one row of the delivery is under its lease.
pub record Held (d : EventDelivery) (s : Outbox) : Type 0 where
  pub rows : All (HeldBy d) s.deliveries
  pub one : count_where (λ r. r.delivery_id == d.delivery_id) s.deliveries ≡ 1

pub claim_due-Held :
    (token now duration : ℕ) (s : Outbox) (d : EventDelivery)
    → Keyed (λ (r : Delivery). r.delivery_id) s.deliveries
    → (claim_due token now duration s).1 ≡ ok (some d)
    → Held d (claim_due token now duration s).0
claim_due-Held token now duration s d keyed h =
    let c = claim_due-Claims token now duration s d h in
    let hit : Delivery → Bool = λ r. r.delivery_id == c.row.delivery_id in
    let mine : Delivery → Bool = λ r. r.delivery_id == d.delivery_id in
    let same : d.delivery_id ≡ c.row.delivery_id = ground (arith, c.handed) in
    record {
      rows = subst (All (HeldBy d)) (sym c.left) (
          All-update _ (HeldBy d) hit (lease_row token c.until) s.deliveries
            (λ x f t e. (
              refl,
              ground (arith, c.handed),
              ground (arith, f, c.handed),
              ground (arith, c.handed),
            ))
            (λ x f t e. let no : ⊥ = ground arith in absurd no)
            (earliest-Keyed before (λ (d : Delivery). d.delivery_id) (λ r. r.lease_epoch)
              (eligible now s.deliveries) s.deliveries c.row keyed c.chosen));
      one =
          subst (λ ds. count_where mine ds ≡ 1) (sym c.left)
            (subst
              (λ id.
                count_where (λ r. r.delivery_id == id)
                  (update_where hit (lease_row token c.until) s.deliveries)
                ≡ 1)
              (sym same)
              (omega (
                arith,
                count_where-kept hit hit (lease_row token c.until) s.deliveries (λ x. refl),
                earliest-count before (λ (r : Delivery). r.delivery_id) (eligible now s.deliveries)
                    s.deliveries c.row c.chosen,
                count_where-key (λ (r : Delivery). r.delivery_id) c.row.delivery_id s.deliveries
                    keyed,
              )));
    }

pub complete-Held :
    (d : EventDelivery) (clock : ℕ) (s : Outbox)
    → Held d s
    → clock < d.lease.until_us
    → ((complete d clock s).1 ≡ true)
      × All (λ r. r.delivery_id ≡ d.delivery_id → r.state ≡ done) (complete d clock s).0.deliveries
unfolding complete
complete-Held d clock s held live =
    let number =
      count_where-same (completes d clock) (λ r. r.delivery_id == d.delivery_id) s.deliveries
        (All-map _ _ s.deliveries (λ r f. ground (arith, f)) held.rows) in
    (
      ground (arith, number, held.one),
      All-update _ _ (completes d clock) (λ r. record r { state = done }) s.deliveries
          (λ r f hit e. refl) (λ r f miss e. let no : ⊥ = ground (arith, f e) in absurd no)
          held.rows,
    )

pub retry-Held :
    (d : EventDelivery) (clock next : ℕ) (error : String) (is_dead : Bool) (s : Outbox)
    → Held d s
    → clock < d.lease.until_us
    → ((retry d clock next error is_dead s).1 ≡ true)
      × All
          (λ r.
            r.delivery_id ≡ d.delivery_id
            → (r.state ≡ (if is_dead then dead else pending)) × (r.next_attempt_us ≡ next))
          (retry d clock next error is_dead s).0.deliveries
unfolding retry
retry-Held d clock next error is_dead s held live =
    let number =
      count_where-same (retries d clock) (λ r. r.delivery_id == d.delivery_id) s.deliveries
        (All-map _ _ s.deliveries (λ r f. ground (arith, f)) held.rows) in
    (
      ground (arith, number, held.one),
      All-update _ _ (retries d clock) (retry_row next error is_dead) s.deliveries
          (λ r f hit e. (refl, refl)) (λ r f miss e. let no : ⊥ = ground (arith, f e) in absurd no)
          held.rows,
    )
