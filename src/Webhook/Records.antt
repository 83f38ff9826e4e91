-- ===== src/Webhook/Records.antt =====
-- The types of the delivery worker, and what it calls: crates/mcpmem-webhook/src/lib.rs.
use mcpmem.Prelude.{
  ℕ, Bool, true, false, String, Option, none, some, List, Result, ok, err, ◌==◌, nat_eq,
}
use mcpmem.Events.Records.{EventDelivery}

pub data WorkerError : Type 0 where
  core policy secret delivery : String → WorkerError

pub data IpAddr : Type 0 where
  v4 : ℕ → ℕ → ℕ → ℕ → IpAddr
  v6 : ℕ → ℕ → ℕ → ℕ → ℕ → ℕ → ℕ → ℕ → IpAddr

-- What the worker reads of a parsed URL.
pub record Url : Type 0 where
  pub scheme : String
  pub port_or_known_default : Option ℕ
  pub username : String
  pub password : Option String
  pub fragment : Option String
  pub host_str : Option String

pub record ValidatedEndpoint : Type 0 where
  pub url : Url
  pub ip : IpAddr
  pub port : ℕ

pub record SignedRequest : Type 0 where
  pub body : List ℕ
  pub event_id : ℕ
  pub timestamp_us : ℕ
  pub signature : String

pub record DeliveryResponse : Type 0 where
  pub status : ℕ
  pub retry_after_us : Option ℕ

pub record DeliveryReport : Type 0 where
  pub claimed : ℕ
  pub completed : ℕ
  pub retried : ℕ
  pub dead : ℕ

-- The calls that leave the repository: the URL parser, the address syntax, DNS, the secret provider,
-- the JSON encoder, the HMAC, the HTTP client, and the texts of errors.
pub record World : Type 0 where
  pub parse : String → Result String Url
  pub is_address : String → Bool
  pub resolve : String → Result WorkerError (List IpAddr)
  pub signing_key : String → Result WorkerError String
  pub encode : EventDelivery → Result WorkerError (List ℕ)
  pub signature : String → ℕ → List ℕ → Result WorkerError String
  pub send : ValidatedEndpoint → SignedRequest → Result WorkerError DeliveryResponse
  pub http_text : ℕ → String
  pub error_text : WorkerError → String

pub record Worker : Type 0 where
  pub allowlist : List String
  pub lease_us : ℕ
  pub allow_private_addresses : Bool
  pub max_body_bytes : ℕ

abbrev pub is_some {ℓ} : {A : Type ℓ} → Option A → Bool
is_some none = false
is_some (some x) = true

abbrev pub is_443 : Option ℕ → Bool
is_443 none = false
is_443 (some p) = p == 443

-- `url.host_str().is_some_and(|host| host.parse::<IpAddr>().is_ok())`
abbrev pub is_address_host : World → Option String → Bool
is_address_host w none = false
is_address_host w (some host) = w.is_address host

abbrev pub parsed : Result String Url → Result WorkerError Url
parsed (ok url) = ok url
parsed (err e) = err (policy e)

-- `url.host_str().expect("checked hostname")`, after the check: the error stands for a panic.
abbrev pub expect_host : Option String → Result WorkerError String
expect_host (some host) = ok host
expect_host none = err (policy "checked hostname")

abbrev pub empty_report : DeliveryReport
empty_report = record { claimed = 0; completed = 0; retried = 0; dead = 0 }

abbrev pub claimed_report : DeliveryReport
claimed_report = record { claimed = 1; completed = 0; retried = 0; dead = 0 }

abbrev pub completed_report : DeliveryReport
completed_report = record { claimed = 1; completed = 1; retried = 0; dead = 0 }

abbrev pub retried_report : DeliveryReport
retried_report = record { claimed = 1; completed = 0; retried = 1; dead = 0 }

abbrev pub dead_report : DeliveryReport
dead_report = record { claimed = 1; completed = 0; retried = 0; dead = 1 }

pub record SubscriptionAudit : Type 0 where
  pub subscription_id : ℕ
  pub endpoint : String
  pub secret_ref : String
  pub enabled : Bool
  pub outcome : Result String (Unit {0})
