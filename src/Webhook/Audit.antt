-- ===== src/Webhook/Audit.antt =====
-- crates/mcpmem-webhook/src/lib.rs: what the startup audit foretells.
use mcpmem.Prelude.{
  Result-cases, ℕ, ◌≡◌, refl, true, String, Option, none, some, List, arith, inl, inr, err, Bool,
  false, Bool-cases,
}
use mcpmem.Events.Records.{EventDelivery}
use mcpmem.Subscriptions.Records.{WebhookSubscription}
use mcpmem.Webhook.Records.{World, Worker, WorkerError, is_address_host, expect_host}
use mcpmem.Webhook.{
  audit_outcome, policy_endpoint, validate_endpoint_inner, prepare, envelope, deliver,
}

-- The two times have the same DNS answers, the same reading of the endpoint and the same secret.
pub record SameAnswers (startup later : World) (s : WebhookSubscription) : Type 0 where
  pub parse : later.parse s.endpoint ≡ startup.parse s.endpoint
  pub is_address : (host : String) → later.is_address host ≡ startup.is_address host
  pub resolve : (host : String) → later.resolve host ≡ startup.resolve host
  pub signing_key : later.signing_key s.secret_ref ≡ startup.signing_key s.secret_ref

is_address_host-same :
    (startup later : World) (s : WebhookSubscription)
    → SameAnswers startup later s
    → (host : Option String) → is_address_host later host ≡ is_address_host startup host
is_address_host-same startup later s same none = refl
is_address_host-same startup later s same (some host) = same.is_address host

validate_endpoint_inner-same :
    (startup later : World) (s : WebhookSubscription) (allowlist : List String)
    (allow_private : Bool)
    → SameAnswers startup later s
    → validate_endpoint_inner later s.endpoint allowlist allow_private
      ≡ validate_endpoint_inner startup s.endpoint allowlist allow_private
unfolding validate_endpoint_inner
validate_endpoint_inner-same startup later s allowlist allow_private same =
    elim (Result-cases (startup.parse s.endpoint)) [
      | inl (e, bad) ↦ ground (arith, bad, same.parse)
      | inr (url, good) ↦
          let refused = is_address_host-same startup later s same url.host_str in
          elim (Result-cases (expect_host url.host_str)) [
            | inl (e, bad) ↦ ground (arith, good, same.parse, refused, bad)
            | inr (host, named) ↦
                ground (arith, good, same.parse, refused, named, same.resolve host)
          ]
    ]

policy_endpoint-same :
    (startup later : World) (worker : Worker) (s : WebhookSubscription)
    → SameAnswers startup later s
    → policy_endpoint later worker s.endpoint ≡ policy_endpoint startup worker s.endpoint
policy_endpoint-same startup later worker s same =
    elim (Bool-cases worker.allow_private_addresses) [
      | inl private ↦
          rw private (validate_endpoint_inner-same startup later s worker.allowlist true same)
      | inr public ↦
          rw public (validate_endpoint_inner-same startup later s worker.allowlist false same)
    ]

-- If the audit at startup refuses an enabled subscription, then every later attempt to deliver to it
-- fails before a request is sent, whatever the delivery and the clock, as long as its URL, DNS and
-- the secret provider answer what they answered at startup.
pub audit_outcome_refuses :
    (startup later : World) (worker : Worker) (s : WebhookSubscription) (reason : String)
    (d : EventDelivery) (now : ℕ)
    → s.enabled ≡ true
    → audit_outcome startup worker s ≡ err reason
    → SameAnswers startup later s
    → (e : WorkerError) × (prepare later worker s d now ≡ err e)
      × (deliver later worker s d now ≡ err e)
unfolding audit_outcome prepare envelope deliver
audit_outcome_refuses startup later worker s reason d now enabled h same =
    let endpoints = policy_endpoint-same startup later worker s same in
    let keys = same.signing_key in
    elim (Result-cases (policy_endpoint later worker s.endpoint)) [
      | inl (e, bad) ↦ (e, ground (arith, bad), ground (arith, bad))
      | inr (endpoint, good) ↦ elim (Result-cases (later.signing_key s.secret_ref)) [
        | inr (key, found) ↦ let no : ⊥ = ground (arith, good, found, endpoints, keys) in absurd no
        | inl (e, lost) ↦ elim (Result-cases (envelope later worker d)) [
          | inl (e', bad) ↦ (e', ground (arith, good, bad), ground (arith, good, bad))
          | inr (body, encoded) ↦
              (e, ground (arith, good, encoded, lost), ground (arith, good, encoded, lost))
        ]
      ]
    ]
