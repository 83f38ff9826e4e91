-- ===== src/Subscriptions.antt =====
-- crates/mcpmem-core/src/subscriptions.rs: webhook subscriptions, and which of them an event reaches.
-- The JSON text of the list columns is not modelled.
pub mod Records
pub mod Rows
pub mod Delivers
mod Examples
use mcpmem.Prelude.{
  ℕ, suc, ◌+◌, Bool, true, false, ◌&&◌, ◌||◌, not, String, Option, none, some, List, [], ◌∷◌, map,
  ltb, ◌==◌, nat_eq, text_eq, if◌then◌else◌, Result, ok, err, first_where, exists_where,
  count_where, update_where, delete_where, select, is_blank, has_control, byte_len, Eq,
}
use mcpmem.Events.Records.{
  ChangeEvent, Outbox, CoreError, invalid_params, memory_error, operation_eq,
}
use mcpmem.Events.{insert_delivery}
use Records.*

abbrev pub is_invalid : WebhookSubscription → Bool
is_invalid s =
    is_blank s.endpoint
    || is_blank s.consumer_origin
    || is_blank s.secret_ref
    || ltb 2048 (byte_len s.endpoint)
    || ltb 256 (byte_len s.consumer_origin)
    || ltb 512 (byte_len s.secret_ref)
    || has_control s.consumer_origin
    || has_control s.secret_ref

pub validate : WebhookSubscription → Result CoreError WebhookSubscription
validate s = if is_invalid s then err invalid_params else ok s

abbrev pub has_id : ℕ → Row → Bool
has_id id r = r.subscription.subscription_id == id

-- INSERT … ON CONFLICT(subscription_id) DO UPDATE, which keeps `created_at_us`.
abbrev pub save : ℕ → WebhookSubscription → List Row → List Row
save now s rows =
    if exists_where (has_id s.subscription_id) rows
    then update_where (has_id s.subscription_id)
        (λ r. record r { subscription = s; updated_at_us = now }) rows
    else record { subscription = s; created_at_us = now; updated_at_us = now } ∷ rows

pub upsert : ℕ → WebhookSubscription → List Row → List Row × Result CoreError (Unit {0})
upsert now subscription rows = elim (validate subscription) [
  | err e ↦ (rows, err e)
  | ok s ↦ (save now s rows, ok tt)
]

pub get : ℕ → List Row → Option WebhookSubscription
get id rows = elim (first_where (has_id id) rows) [ none ↦ none | some r ↦ some r.subscription ]

pub delete : ℕ → List Row → List Row × Bool
delete id rows = (delete_where (has_id id) rows, count_where (has_id id) rows == 1)

-- ORDER BY created_at_us, subscription_id
abbrev pub before : Row → Row → Bool
before a b =
    ltb a.created_at_us b.created_at_us
    || (a.created_at_us == b.created_at_us
        && ltb a.subscription.subscription_id b.subscription.subscription_id)

unfoldable pub insert_sorted : Row → List Row → List Row
insert_sorted r [] = r ∷ []
insert_sorted r (x ∷ xs) =
    let rest = insert_sorted r xs in if before x r then x ∷ rest else r ∷ x ∷ xs

unfoldable pub sorted : List Row → List Row
sorted [] = []
sorted (x ∷ xs) = insert_sorted x (sorted xs)

pub list : List Row → List WebhookSubscription
list rows = map (λ r. r.subscription) (sorted rows)

abbrev pub contains {ℓ} : {A : Type ℓ} → ⦃e : Eq A⦄ → List A → A → Bool
contains xs x = exists_where (λ y. y == x) xs

abbrev pub is_empty {ℓ} : {A : Type ℓ} → List A → Bool
is_empty [] = true
is_empty (x ∷ xs) = false

abbrev pub entity_type : ChangeEvent → Option String
entity_type event = elim event.after [ some t ↦ some t | none ↦ event.before ]

-- The filter of `matching`, on an enabled subscription.
pub wants : ChangeEvent → String → WebhookSubscription → Bool
wants event kind s =
    not (s.consumer_origin == event.origin)
    && not (contains s.ignored_origins event.origin)
    && (is_empty s.event_operations || contains s.event_operations event.operation)
    && (is_empty s.entity_types || contains s.entity_types kind)

unfoldable pub matching : ChangeEvent → List Row → Result CoreError (List WebhookSubscription)
matching event rows = elim (entity_type event) [
  | none ↦ err memory_error
  | some kind ↦ ok (
      select (wants event kind)
        (map (λ r. r.subscription) (select (λ r. r.subscription.enabled) rows)))
]

-- The n-th identifier that the loop draws is `draw n`.
unfoldable pub insert_all : (ℕ → ℕ) → ℕ → List WebhookSubscription → Outbox → Outbox × ℕ
insert_all draw event_id [] s = (s, 0)
insert_all draw event_id (x ∷ xs) s =
    let (s', one) = insert_delivery (draw 0) event_id x.subscription_id s in
    let (s'', more) = insert_all (λ n. draw (suc n)) event_id xs s' in (s'', one + more)

unfoldable pub enqueue_matching :
    (ℕ → ℕ) → ChangeEvent → List Row → Outbox → Outbox × Result CoreError ℕ
enqueue_matching draw event rows s = elim (matching event rows) [
  | err e ↦ (s, err e)
  | ok matches ↦ let (s', inserted) = insert_all draw event.event_id matches s in (s', ok inserted)
]
