-- ===== src/Subscriptions/Rows.antt =====
-- crates/mcpmem-core/src/subscriptions.rs: what the registry answers after an upsert.
use mcpmem.Prelude.{
  ℕ, ◌≡◌, ◌≢◌, refl, sym, true, some, List, [], ◌∷◌, arith, inl, inr, ◌==◌, nat_eq, ℕ_discrete, ◌⊎◌,
  if◌then◌else◌, if_case, Result, ok, err, exists_where, update_where, subst,
}
use mcpmem.Events.Records.{CoreError, invalid_params}
use mcpmem.Subscriptions.Records.{WebhookSubscription, Row}
use mcpmem.Subscriptions.{upsert, is_invalid, validate, save, get, has_id}

updated-same :
    (now : ℕ) (s : WebhookSubscription) (rows : List Row)
    → exists_where (has_id s.subscription_id) rows ≡ true
    → get s.subscription_id (
        update_where
          (has_id s.subscription_id)
          (λ r. record r { subscription = s; updated_at_us = now })
          rows)
      ≡ some s
unfolding get
updated-same now s [] h = ground arith
updated-same now s (x ∷ rows) h = ground (arith, updated-same now s rows)

updated-other :
    (now id : ℕ) (s : WebhookSubscription) (rows : List Row)
    → id ≢ s.subscription_id
    → get id (
        update_where
          (has_id s.subscription_id)
          (λ r. record r { subscription = s; updated_at_us = now })
          rows)
      ≡ get id rows
unfolding get
updated-other now id s [] ne = refl
updated-other now id s (x ∷ rows) ne = ground (arith, ne, updated-other now id s rows ne)

save-get :
    (now id : ℕ) (s : WebhookSubscription) (rows : List Row)
    → get id (save now s rows) ≡ (if id == s.subscription_id then some s else get id rows)
unfolding get
save-get now id s rows = elim (ℕ_discrete id s.subscription_id) [
  | yes same ↦
      subst (λ i. get i (save now s rows) ≡ (if i == s.subscription_id then some s else get i rows))
        (sym same)
        (if_case
          (λ q. get s.subscription_id q ≡ (
            if s.subscription_id == s.subscription_id then some s else get s.subscription_id rows))
          (exists_where (has_id s.subscription_id) rows)
          (λ here. ground (arith, updated-same now s rows here)) (λ _. ground arith))
  | no other ↦
      if_case (λ q. get id q ≡ (if id == s.subscription_id then some s else get id rows))
        (exists_where (has_id s.subscription_id) rows)
        (λ here. ground (arith, updated-other now id s rows other)) (λ _. ground arith)
]

validate-cases :
    (s : WebhookSubscription) → ((e : CoreError) × (validate s ≡ err e)) ⊎ (validate s ≡ ok s)
unfolding validate
validate-cases s =
    if_case
      (λ (q : Result CoreError WebhookSubscription). ((e : CoreError) × (q ≡ err e)) ⊎ (q ≡ ok s))
      (is_invalid s) {x = err invalid_params} {y = ok s} (λ _. inl (invalid_params, refl))
      (λ _. inr refl)

-- After an upsert that is accepted, a lookup of its identifier returns the subscription as it was
-- given, and a lookup of any other returns what it returned before.
pub upsert-get :
    (now id : ℕ) (s : WebhookSubscription) (rows : List Row)
    → (upsert now s rows).1 ≡ ok tt
    → get id (upsert now s rows).0 ≡ (if id == s.subscription_id then some s else get id rows)
unfolding upsert
upsert-get now id s rows h = elim (validate-cases s) [
  | inl (e, refused) ↦ let no : ⊥ = ground (arith, refused) in absurd no
  | inr valid ↦ rw (valid, upsert) (save-get now id s rows)
]
