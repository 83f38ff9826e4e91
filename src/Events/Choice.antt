-- ===== src/Events/Choice.antt =====
-- Which row `claim_due` takes.
use mcpmem.Prelude.{
  earliest, earliest-none, Result-cases, ℕ, ◌≡◌, refl, Bool, true, false, none, some, List, [], ◌∷◌,
  All, arith, ok, Option-cases, inl, inr, ◌⊎◌, All-map, ◌==◌, nat_eq, update_where,
}
use mcpmem.Events.Records.{Outbox, Delivery, EventDelivery, ChangeEvent}
use mcpmem.Events.{claim_due, claim_row, claimed, lease_until, before, eligible, lease_row, get}

abbrev pub NotBefore : Delivery → Delivery → Type 0
NotBefore d x = before x d ≡ false

-- No eligible row stands before the one that is taken.
pub earliest-least :
    (test : Delivery → Bool) (ds : List Delivery) (d : Delivery)
    → earliest before test ds ≡ some d
    → All (λ x. test x ≡ true → NotBefore d x) ds
unfolding earliest
earliest-least test [] d h = tt
earliest-least test (x ∷ ds) d h = elim (Option-cases (earliest before test ds)) [
  | inl e ↦ (
    λ t. ground arith,
    All-map _ _ ds (λ y miss t. ground arith) (earliest-none before test ds e),
  )
  | inr (y, e) ↦ (
    λ t. ground arith,
    All-map _ _ ds (λ z f t. ground (arith, f t)) (earliest-least test ds y e),
  )
]

-- What a successful claim rests on, and what it leaves.
pub record Claims (token now duration : ℕ) (s : Outbox) (ed : EventDelivery) : Type 0 where
  pub row : Delivery
  pub event : ChangeEvent
  pub until : ℕ
  pub lease : lease_until now duration ≡ ok until
  pub chosen : earliest before (eligible now s.deliveries) s.deliveries ≡ some row
  pub found : get row.event_id s ≡ some event
  pub handed : ed ≡ claimed token until row event
  pub left :
      (claim_due token now duration s).0.deliveries
      ≡ update_where (λ r. r.delivery_id == row.delivery_id) (lease_row token until) s.deliveries

abbrev Outcome : ℕ → ℕ → ℕ → Outbox → Type 0
Outcome token now duration s =
    (((claim_due token now duration s).0 ≡ s)
      × ((ed : EventDelivery) → (claim_due token now duration s).1 ≡ ok (some ed) → ⊥))
    ⊎ ((ed : EventDelivery) × Claims token now duration s ed)

-- Every claim takes a row or leaves the outbox as it was.
pub claim_due-cases : (token now duration : ℕ) (s : Outbox) → Outcome token now duration s
unfolding claim_due claim_row
claim_due-cases token now duration s = elim (Result-cases (lease_until now duration)) [
  | inl (e, refused) ↦ inl (ground (arith, refused), λ ed h. ground (arith, refused))
  | inr (until, lease) ↦
      elim (Option-cases (earliest before (eligible now s.deliveries) s.deliveries)) [
        | inl idle ↦ inl (ground (arith, lease), λ ed h. ground (arith, lease))
        | inr (d, chosen) ↦ elim (Option-cases (get d.event_id s)) [
          | inl missing ↦ inl (ground (arith, lease), λ ed h. ground (arith, lease))
          | inr (e, found) ↦ inr (
            claimed token until d e,
            record {
              row = d;
              event = e;
              until = until;
              lease = lease;
              chosen = chosen;
              found = found;
              handed = refl;
              left = ground (arith, lease);
            },
          )
        ]
      ]
]

pub claim_due-Claims :
    (token now duration : ℕ) (s : Outbox) (ed : EventDelivery)
    → (claim_due token now duration s).1 ≡ ok (some ed)
    → Claims token now duration s ed
unfolding claim_due claim_row
claim_due-Claims token now duration s ed h = elim (claim_due-cases token now duration s) [
  | inl (_, nothing) ↦ absurd (nothing ed h)
  | inr (ed', c) ↦
      let same : ed ≡ claimed token c.until c.row c.event =
        ground (arith, c.lease, c.chosen, c.found) in
      record {
        row = c.row;
        event = c.event;
        until = c.until;
        lease = c.lease;
        chosen = c.chosen;
        found = c.found;
        handed = same;
        left = c.left;
      }
]

-- A claim hands out nothing only if no delivery is due whose subscription has no running lease.
pub claim_due_idle :
    (token now duration : ℕ) (s : Outbox)
    → (claim_due token now duration s).1 ≡ ok none
    → All (λ x. eligible now s.deliveries x ≡ false) s.deliveries
unfolding claim_due claim_row
claim_due_idle token now duration s h = elim (Result-cases (lease_until now duration)) [
  | inl (e, refused) ↦ let no : ⊥ = ground (arith, refused) in absurd no
  | inr (until, lease) ↦
      elim (Option-cases (earliest before (eligible now s.deliveries) s.deliveries)) [
        | inl idle ↦ earliest-none before (eligible now s.deliveries) s.deliveries idle
        | inr (d, chosen) ↦ elim (Option-cases (get d.event_id s)) [
          | inl missing ↦ let no : ⊥ = ground (arith, lease) in absurd no
          | inr (e, found) ↦ let no : ⊥ = ground (arith, lease) in absurd no
        ]
      ]
]
