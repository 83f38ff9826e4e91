-- ===== src/Oauth/Registration.antt =====
-- crates/mcpmem-oauth/src/registration.rs: how a client becomes known. The JSON of a request and of a
-- document is not modelled: what serde makes of it is an argument, none where it refuses.
pub mod Urls
pub mod Sound
mod Examples
use mcpmem.Prelude.{
  ℕ, ◌/◌, Bool, true, false, ◌&&◌, ◌||◌, not, String, Option, none, some, List, [], ◌∷◌, ltb, leb,
  ◌==◌, nat_eq, text_eq, if◌then◌else◌, Result, ok, err, ◌>>=◌, ◌>>◌, refuse_if, exists_where,
  byte_len, length,
}
use mcpmem.Oauth.Store.Records.{ClientRecord, Store}
use mcpmem.Oauth.Store.{put_client}
use Urls.{host, has_code, eq_ignore_ascii_case}

pub data RegistrationError : Type 0 where
  invalid_client_metadata invalid_redirect_uri domain_not_allowed malformed_document
        metadata_mismatch :
      RegistrationError
  fetch : String → RegistrationError

pub record RegistrationRequest : Type 0 where
  pub client_name : String
  pub redirect_uris : List String

pub record MetadataDocument : Type 0 where
  pub client_id : String
  pub client_name : String
  pub redirect_uris : List String

-- The members of the response that are not fixed.
pub record RegistrationResponse : Type 0 where
  pub client_id : String
  pub client_id_issued_at : ℕ
  pub client_name : String
  pub redirect_uris : List String

abbrev pub dcr : String
dcr = "dcr"

abbrev pub cimd : String
cimd = "cimd"

abbrev pub max_client_name_bytes : ℕ
max_client_name_bytes = 256

abbrev pub max_redirect_uris : ℕ
max_redirect_uris = 8

abbrev pub max_url_bytes : ℕ
max_url_bytes = 2048

abbrev pub is_loopback : String → Bool
is_loopback h = h == "127.0.0.1" || h == "[::1]" || eq_ignore_ascii_case h "localhost"

abbrev pub is_some_host : Option String → Bool
is_some_host none = false
is_some_host (some h) = true

abbrev pub is_loopback_host : Option String → Bool
is_loopback_host none = false
is_loopback_host (some h) = is_loopback h

unfoldable pub is_acceptable_redirect_uri : String → Bool
unfolding host has_code eq_ignore_ascii_case
is_acceptable_redirect_uri uri =
    if has_code 35 uri
    then false
    else if is_some_host (host uri "https://")
    then true
    else is_loopback_host (host uri "http://")

unfoldable pub check_redirect_uris : List String → Result RegistrationError (Unit {0})
unfolding is_acceptable_redirect_uri
check_redirect_uris [] = ok tt
check_redirect_uris (uri ∷ uris) =
    refuse_if (not (is_acceptable_redirect_uri uri)) invalid_redirect_uri
    >> check_redirect_uris uris

unfoldable pub within_bounds : ClientRecord → Bool
within_bounds c =
    leb (byte_len c.client_id) max_url_bytes
    && leb (byte_len c.client_name) max_client_name_bytes
    && leb (length c.redirect_uris) max_redirect_uris
    && not (exists_where (λ uri. ltb max_url_bytes (byte_len uri)) c.redirect_uris)

abbrev pub is_empty_list : List String → Bool
is_empty_list [] = true
is_empty_list (uri ∷ uris) = false

-- `token` is what `new_token` draws.
abbrev pub new_client : String → ℕ → RegistrationRequest → ClientRecord
new_client token now_us request = record {
  client_id = token;
  client_name = request.client_name;
  redirect_uris = request.redirect_uris;
  source = dcr;
  created_us = now_us;
  last_used_us = now_us;
}

abbrev pub usable : Option RegistrationRequest → Result RegistrationError RegistrationRequest
usable none = err invalid_client_metadata
usable (some request) =
    refuse_if (is_empty_list request.redirect_uris) invalid_client_metadata >> ok request

abbrev pub admitted :
    String → ℕ → Option RegistrationRequest → Result RegistrationError ClientRecord
admitted token now_us body = usable body >>= λ request.
    check_redirect_uris request.redirect_uris
    >> refuse_if (not (within_bounds (new_client token now_us request))) invalid_client_metadata
    >> ok (new_client token now_us request)

unfoldable pub register :
    String
    → ℕ
    → Option RegistrationRequest
    → Store
    → Store × Result RegistrationError RegistrationResponse
unfolding check_redirect_uris within_bounds
register token now_us body s = elim (admitted token now_us body) [
  | err e ↦ (s, err e)
  | ok c ↦ (
    put_client c s,
    ok (record {
      client_id = c.client_id;
      client_id_issued_at = now_us / 1_000_000;
      client_name = c.client_name;
      redirect_uris = c.redirect_uris;
    }),
  )
]

-- `fetch.get(url)`, and serde's reading of the body.
pub record Web : Type 0 where
  pub get : String → Result String String
  pub parse : String → Option MetadataDocument

abbrev pub fetched : Web → String → Result RegistrationError MetadataDocument
fetched w url = elim (w.get url) [
  | err reason ↦ err (fetch reason)
  | ok body ↦ elim (w.parse body) [ none ↦ err malformed_document | some document ↦ ok document ]
]

abbrev pub published_client : ℕ → MetadataDocument → ClientRecord
published_client now_us document = record {
  client_id = document.client_id;
  client_name = document.client_name;
  redirect_uris = document.redirect_uris;
  source = cimd;
  created_us = now_us;
  last_used_us = now_us;
}

abbrev pub checked_document : String → ℕ → MetadataDocument → Result RegistrationError ClientRecord
checked_document url now_us document =
    refuse_if (not (document.client_id == url)) metadata_mismatch
    >> refuse_if (document.client_name == "" || is_empty_list document.redirect_uris)
        malformed_document
    >> check_redirect_uris document.redirect_uris
    >> refuse_if (not (within_bounds (published_client now_us document))) malformed_document
    >> ok (published_client now_us document)

-- The host of the URL is one of the domains.
abbrev pub is_allowed_host : String → List String → Bool
is_allowed_host h allowed_domains =
    exists_where (λ domain. eq_ignore_ascii_case domain h) allowed_domains

abbrev pub may_fetch : String → List String → Result RegistrationError (Unit {0})
may_fetch url allowed_domains = elim (host url "https://") [
  | none ↦ err domain_not_allowed
  | some h ↦
      refuse_if (not (is_allowed_host h allowed_domains)) domain_not_allowed
      >> refuse_if (ltb max_url_bytes (byte_len url)) malformed_document
]

unfoldable pub resolve_metadata_document :
    Web → String → List String → ℕ → Result RegistrationError ClientRecord
unfolding check_redirect_uris within_bounds host eq_ignore_ascii_case
resolve_metadata_document w url allowed_domains now_us =
    may_fetch url allowed_domains >> fetched w url >>= λ document.
    checked_document url now_us document
