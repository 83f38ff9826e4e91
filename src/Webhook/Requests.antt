-- ===== src/Webhook/Requests.antt =====
-- crates/mcpmem-webhook/src/lib.rs: the requests that the worker sends.
use mcpmem.Prelude.{
  Result-cases, ℕ, ◌≡◌, ◌≤◌, refl, Bool, true, false, String, Option, none, some, List, [], ◌∷◌,
  arith, inl, inr, Bool-cases, Option-cases, nat_eq, text_eq, ok, length, ltb, subst, ap, sym,
}
use mcpmem.Events.Records.{EventDelivery}
use mcpmem.Subscriptions.Records.{WebhookSubscription}
use mcpmem.Subscriptions.{contains}
use mcpmem.Webhook.Records.{
  World, Worker, Url, IpAddr, ValidatedEndpoint, SignedRequest, is_some, is_443,
}
use mcpmem.Webhook.Addresses.{is_public, all_public}
use mcpmem.Webhook.{
  checked, validate_endpoint_inner, policy_endpoint, envelope, prepare, is_refused,
}

-- What an endpoint that the policy accepts has.
pub record Accepted (w : World) (worker : Worker) (e : ValidatedEndpoint) : Type 0 where
  pub host : String
  pub addresses : List IpAddr
  pub https : e.url.scheme ≡ "https"
  pub is_443_port : (e.port ≡ 443) × (e.url.port_or_known_default ≡ some 443)
  pub no_credentials : (e.url.username ≡ "") × (e.url.password ≡ none)
  pub named : (e.url.host_str ≡ some host) × (w.is_address host ≡ false)
  pub allowed : contains worker.allowlist host ≡ true
  pub resolved : w.resolve host ≡ ok addresses
  pub is_first : (more : List IpAddr) × (addresses ≡ e.ip ∷ more)
  pub only_public : worker.allow_private_addresses ≡ false → all_public addresses ≡ true

checked-Accepted :
    (allow_private : Bool) (url : Url) (addresses : List IpAddr) (e : ValidatedEndpoint)
    → checked allow_private url addresses ≡ ok e
    → (e.url ≡ url)
      × (e.port ≡ 443)
      × ((more : List IpAddr) × (addresses ≡ e.ip ∷ more))
      × (allow_private ≡ false → all_public addresses ≡ true)
unfolding checked
checked-Accepted allow_private url [] e h = let no : ⊥ = ground arith in absurd no
checked-Accepted true url (ip ∷ more) e h =
    (ground arith, ground arith, (more, ground arith), λ k. ground arith)
checked-Accepted false url (ip ∷ more) e h = elim (Bool-cases (is_public ip)) [
  | inr no_first ↦ let no : ⊥ = ground arith in absurd no
  | inl first ↦ elim (Bool-cases (all_public more)) [
    | inr mixed ↦ let no : ⊥ = ground arith in absurd no
    | inl rest ↦ (ground arith, ground arith, (more, ground arith), λ k. ground arith)
  ]
]

abbrev Bare : World → Url → Type 0
Bare w url =
    (url.scheme ≡ "https")
    × (url.port_or_known_default ≡ some 443)
    × (url.username ≡ "")
    × (url.password ≡ none)
    × ((host : String) × (url.host_str ≡ some host) × (w.is_address host ≡ false))

is_443-some : (p : Option ℕ) → is_443 p ≡ true → p ≡ some 443
is_443-some none h = let no : ⊥ = ground arith in absurd no
is_443-some (some p) h = ground arith

is_some-none : (p : Option String) → is_some p ≡ false → p ≡ none
is_some-none none h = refl
is_some-none (some p) h = let no : ⊥ = ground arith in absurd no

is_refused-Bare : (w : World) (url : Url) → is_refused w url ≡ false → Bare w url
is_refused-Bare w url h = elim (Option-cases url.host_str) [
  | inl missing ↦ let no : ⊥ = ground arith in absurd no
  | inr (host, named) ↦ (
    ground arith,
    is_443-some url.port_or_known_default (ground arith),
    ground arith,
    is_some-none url.password (ground arith),
    (host, named, ground arith),
  )
]

endpoint-Accepted :
    (w : World) (worker : Worker) (endpoint : String) (allow_private : Bool) (e : ValidatedEndpoint)
    → worker.allow_private_addresses ≡ allow_private
    → validate_endpoint_inner w endpoint worker.allowlist allow_private ≡ ok e
    → Accepted w worker e
unfolding validate_endpoint_inner
endpoint-Accepted w worker endpoint allow_private e same h =
    elim (Result-cases (w.parse endpoint)) [
      | inl (error, bad) ↦ let no : ⊥ = ground (arith, bad) in absurd no
      | inr (url, good) ↦ elim (Bool-cases (is_refused w url)) [
        | inl refused ↦ let no : ⊥ = ground (arith, good) in absurd no
        | inr kept ↦
            let (https, port, user, password, (host, named, no_address)) =
              is_refused-Bare w url kept in
            elim (Bool-cases (contains worker.allowlist host)) [
              | inr unknown ↦ let no : ⊥ = ground (arith, good, named) in absurd no
              | inl allowed ↦ elim (Result-cases (w.resolve host)) [
                | inl (error, lost) ↦ let no : ⊥ = ground (arith, good, named) in absurd no
                | inr (addresses, resolved) ↦
                    let last : checked allow_private url addresses ≡ ok e =
                      ground (arith, good, named) in
                    let (url_same, e_port, first, public) =
                      checked-Accepted allow_private url addresses e last in
                    record {
                      host = host;
                      addresses = addresses;
                      https = ground arith;
                      is_443_port = (e_port, ground arith);
                      no_credentials = (ground arith, ground arith);
                      named = (ground arith, no_address);
                      allowed = allowed;
                      resolved = resolved;
                      is_first = first;
                      only_public = λ k. public (ground arith);
                    }
              ]
            ]
      ]
    ]

policy_endpoint-Accepted :
    (w : World) (worker : Worker) (endpoint : String) (e : ValidatedEndpoint)
    → policy_endpoint w worker endpoint ≡ ok e
    → Accepted w worker e
policy_endpoint-Accepted w worker endpoint e h = elim (Bool-cases worker.allow_private_addresses) [
  | inl relaxed ↦ endpoint-Accepted w worker endpoint true e relaxed (rw relaxed at h)
  | inr strict ↦ endpoint-Accepted w worker endpoint false e strict (rw strict at h)
]

-- A request that the worker is about to send goes over https to port 443 of an allowlisted host that
-- is no address and carries no credentials, at the first address that the host resolved to; unless
-- private addresses are allowed, all its addresses pass the check for public ones. Its body is the
-- event's encoding, within the cap, and its signature that of the subscription's key over the body.
pub prepare_sound :
    (w : World) (worker : Worker) (s : WebhookSubscription) (d : EventDelivery) (now : ℕ)
    (e : ValidatedEndpoint) (r : SignedRequest)
    → prepare w worker s d now ≡ ok (e, r)
    → Accepted w worker e
      × (w.encode d ≡ ok r.body)
      × (length r.body ≤ worker.max_body_bytes)
      × ((key : String) × (w.signing_key s.secret_ref ≡ ok key)
          × (w.signature key now r.body ≡ ok r.signature))
      × (r.event_id ≡ d.event.event_id)
      × (r.timestamp_us ≡ now)
unfolding prepare envelope
prepare_sound w worker s d now e r h = elim (Result-cases (policy_endpoint w worker s.endpoint)) [
  | inl (error, bad) ↦ let no : ⊥ = ground (arith, bad) in absurd no
  | inr (endpoint, good) ↦ elim (Result-cases (w.encode d)) [
    | inl (error, bad) ↦ let no : ⊥ = ground (arith, good, bad) in absurd no
    | inr (body, encoded) ↦ elim (Bool-cases (ltb worker.max_body_bytes (length body))) [
      | inl big ↦ let no : ⊥ = ground (arith, good, encoded) in absurd no
      | inr small ↦ elim (Result-cases (w.signing_key s.secret_ref)) [
        | inl (error, bad) ↦ let no : ⊥ = ground (arith, good, encoded, bad) in absurd no
        | inr (key, found) ↦ elim (Result-cases (w.signature key now body)) [
          | inl (error, bad) ↦ let no : ⊥ = ground (arith, good, encoded, found, bad) in absurd no
          | inr (signature, signed) ↦
              let same_e : endpoint ≡ e = ground (arith, good, encoded, found, signed) in
              let request : record {
                body = body;
                event_id = d.event.event_id;
                timestamp_us = now;
                signature = signature;
              }
                  ≡ r =
                ground (arith, good, encoded, found, signed) in
              (
                subst (Accepted w worker) same_e
                    (policy_endpoint-Accepted w worker s.endpoint endpoint good),
                subst (λ (q : SignedRequest). w.encode d ≡ ok q.body) request encoded,
                subst (λ (q : SignedRequest). length q.body ≤ worker.max_body_bytes) request
                    (ground arith),
                (
                  key,
                  found,
                  subst (λ (q : SignedRequest). w.signature key now q.body ≡ ok q.signature) request
                      signed,
                ),
                ap (λ (q : SignedRequest). q.event_id) (sym request),
                ap (λ (q : SignedRequest). q.timestamp_us) (sym request),
              )
        ]
      ]
    ]
  ]
]
