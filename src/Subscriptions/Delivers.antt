-- ===== src/Subscriptions/Delivers.antt =====
-- crates/mcpmem-core/src/subscriptions.rs: the deliveries that an event is given.
use mcpmem.Prelude.{
  ℕ, suc, ◌+◌, ◌≡◌, refl, ap, ◌∙◌, Bool, true, ◌&&◌, ◌||◌, some, List, [], ◌∷◌, arith, inl, inr,
  Bool-cases, ◌==◌, nat_eq, ℕ_discrete, ◌⊎◌, if_case, ok, exists_where, select, map, All, All-map,
  String, length, Option-cases, subst,
}
use mcpmem.Events.Records.{ChangeEvent, Outbox, Delivery}
use mcpmem.Events.{insert_delivery}
use mcpmem.Subscriptions.Records.{WebhookSubscription, Row}
use mcpmem.Subscriptions.{enqueue_matching, matching, insert_all, wants, has_id, entity_type}

-- The delivery of this event to this subscription.
abbrev pub is_for : ℕ → ℕ → Delivery → Bool
is_for event_id subscription_id d = d.event_id == event_id && d.subscription_id == subscription_id

insert_delivery-exists :
    (id event_id sub k : ℕ) (s : Outbox)
    → exists_where (is_for event_id k) (insert_delivery id event_id sub s).0.deliveries
      ≡ (exists_where (is_for event_id k) s.deliveries || (sub == k))
unfolding insert_delivery
insert_delivery-exists id event_id sub k s =
    elim (Bool-cases (exists_where (is_for event_id sub) s.deliveries)) [
      | inl here ↦ elim (ℕ_discrete sub k) [
        | yes same ↦
            ground
              (arith, subst (λ i. exists_where (is_for event_id i) s.deliveries ≡ true) same here)
        | no other ↦ ground arith
      ]
      | inr absent ↦ ground arith
    ]

insert_all-exists :
    (draw : ℕ → ℕ) (event_id k : ℕ) (xs : List WebhookSubscription) (s : Outbox)
    → exists_where (is_for event_id k) (insert_all draw event_id xs s).0.deliveries ≡ (
        exists_where (is_for event_id k) s.deliveries
        || exists_where (λ x. x.subscription_id == k) xs)
unfolding insert_all
insert_all-exists draw event_id k [] s = ground arith
insert_all-exists draw event_id k (x ∷ xs) s =
    let s' = (insert_delivery (draw 0) event_id x.subscription_id s).0 in
    ground (
      arith,
      insert_all-exists (λ n. draw (suc n)) event_id k xs s',
      insert_delivery-exists (draw 0) event_id x.subscription_id k s,
    )

insert_delivery-length :
    (id event_id sub : ℕ) (s : Outbox)
    → length (insert_delivery id event_id sub s).0.deliveries
      ≡ length s.deliveries + (insert_delivery id event_id sub s).1
unfolding insert_delivery
insert_delivery-length id event_id sub s =
    if_case (λ (q : Outbox × ℕ). length q.0.deliveries ≡ length s.deliveries + q.1)
      (exists_where (is_for event_id sub) s.deliveries) (λ _. omega arith) (λ _. omega arith)

insert_all-length :
    (draw : ℕ → ℕ) (event_id : ℕ) (xs : List WebhookSubscription) (s : Outbox)
    → length (insert_all draw event_id xs s).0.deliveries
      ≡ length s.deliveries + (insert_all draw event_id xs s).1
unfolding insert_all
insert_all-length draw event_id [] s = omega arith
insert_all-length draw event_id (x ∷ xs) s =
    let s' = (insert_delivery (draw 0) event_id x.subscription_id s).0 in
    let rest = insert_all-length (λ n. draw (suc n)) event_id xs s' in
    omega (arith, rest, insert_delivery-length (draw 0) event_id x.subscription_id s)

select-exists :
    (event : ChangeEvent) (kind : String) (k : ℕ) (rows : List Row)
    → exists_where
        (λ x. x.subscription_id == k)
        (select
          (wants event kind)
          (map (λ r. r.subscription) (select (λ r. r.subscription.enabled) rows)))
      ≡ exists_where
          (λ r. has_id k r && r.subscription.enabled && wants event kind r.subscription)
          rows
select-exists event kind k [] = refl
select-exists event kind k (r ∷ rows) = ground (arith, select-exists event kind k rows)

-- If the event has a snapshot, then after `enqueue_matching` a subscription has a delivery of the
-- event exactly if it had one before or an enabled row of its identifier has a filter that takes it.
pub enqueue_matching_exact :
    (draw : ℕ → ℕ) (event : ChangeEvent) (kind : String) (rows : List Row) (s : Outbox) (k : ℕ)
    → entity_type event ≡ some kind
    → exists_where (is_for event.event_id k) (enqueue_matching draw event rows s).0.deliveries ≡ (
        exists_where (is_for event.event_id k) s.deliveries
        || exists_where
            (λ r. has_id k r && r.subscription.enabled && wants event kind r.subscription)
            rows)
unfolding enqueue_matching matching
enqueue_matching_exact draw event kind rows s k h =
    rw (h, enqueue_matching, matching)
      (insert_all-exists draw event.event_id k _ s
        ∙ ap (λ b. exists_where (is_for event.event_id k) s.deliveries || b)
            (select-exists event kind k rows))

-- The event has its delivery already.
insert_all-done :
    (draw : ℕ → ℕ) (event_id : ℕ) (xs : List WebhookSubscription) (s : Outbox)
    → All (λ x. exists_where (is_for event_id x.subscription_id) s.deliveries ≡ true) xs
    → insert_all draw event_id xs s ≡ (s, 0)
unfolding insert_all insert_delivery
insert_all-done draw event_id [] s _ = refl
insert_all-done draw event_id (x ∷ xs) s (here, a) =
    rw (here, insert_all-done (λ n. draw (suc n)) event_id xs s a) refl

own_id :
    (xs : List WebhookSubscription)
    → All (λ x. exists_where (λ y. y.subscription_id == x.subscription_id) xs ≡ true) xs
own_id [] = tt
own_id (x ∷ xs) = (ground arith, All-map _ _ xs (λ y h. ground (arith, h)) (own_id xs))

-- Running `enqueue_matching` again for the same event and the same subscriptions, whatever
-- identifiers it draws, inserts nothing; its answer is zero or the error of the first run.
pub enqueue_matching_again :
    (draw again : ℕ → ℕ) (event : ChangeEvent) (rows : List Row) (s : Outbox)
    → let s' = (enqueue_matching draw event rows s).0 in
      ((enqueue_matching again event rows s').0 ≡ s')
      × (((enqueue_matching again event rows s').1 ≡ ok 0)
          ⊎ ((enqueue_matching again event rows s').1 ≡ (enqueue_matching draw event rows s).1))
unfolding enqueue_matching matching
enqueue_matching_again draw again event rows s = elim (Option-cases (entity_type event)) [
  | inl none_here ↦ (ground arith, inr (ground arith))
  | inr (kind, found) ↦
      let xs =
        select (wants event kind)
          (map (λ r. r.subscription) (select (λ r. r.subscription.enabled) rows)) in
      let s' = (insert_all draw event.event_id xs s).0 in
      let there : All
          (λ x. exists_where (is_for event.event_id x.subscription_id) s'.deliveries ≡ true) xs =
        All-map _ _ xs
          (λ x h. ground (arith, h, insert_all-exists draw event.event_id x.subscription_id xs s))
          (own_id xs) in
      let nothing = insert_all-done again event.event_id xs s' there in
      (ground (arith, nothing), inl (ground (arith, nothing)))
]

-- The count that `enqueue_matching` returns is the number of deliveries it adds.
pub enqueue_matching-length :
    (draw : ℕ → ℕ) (event : ChangeEvent) (rows : List Row) (s : Outbox) (n : ℕ)
    → (enqueue_matching draw event rows s).1 ≡ ok n
    → length (enqueue_matching draw event rows s).0.deliveries ≡ length s.deliveries + n
unfolding enqueue_matching matching
enqueue_matching-length draw event rows s n h = elim (Option-cases (entity_type event)) [
  | inl none_here ↦ let no : ⊥ = ground arith in absurd no
  | inr (kind, found) ↦
      let xs =
        select (wants event kind)
          (map (λ r. r.subscription) (select (λ r. r.subscription.enabled) rows)) in
      ground (arith, insert_all-length draw event.event_id xs s)
]
