-- ===== src/Oauth/Registration/Sound.antt =====
-- crates/mcpmem-oauth/src/registration.rs: what a client that became known satisfies.
use mcpmem.Prelude.{ℕ, ◌≡◌, ◌≢◌, true, false, String, List, [], ◌⊎◌, nat_eq, text_eq, All}
use mcpmem.Oauth.Store.Records.{ClientRecord, Store}
use mcpmem.Oauth.Registration.Urls.{has_code, HostOf}
use mcpmem.Oauth.Registration.{
  MetadataDocument, within_bounds, is_loopback, published_client, is_allowed_host,
}

-- Where a code may be sent: without a fragment, to a host by https, or by http to this machine.
pub record Acceptable (uri : String) : Type 0 where
  pub no_fragment : has_code 35 uri ≡ false
  pub goes_to :
      (h : String) × (HostOf uri "https://" h ⊎ (HostOf uri "http://" h × (is_loopback h ≡ true)))

-- The URL is on an allowed domain.
pub record OnDomain (url : String) (allowed_domains : List String) : Type 0 where
  pub name : String
  pub hosted : HostOf url "https://" name
  pub listed : is_allowed_host name allowed_domains ≡ true

-- What a client has that a document describes.
pub record Published (url : String) (now_us : ℕ) (document : MetadataDocument) (c : ClientRecord)
    : Type 0 where
  pub same : c ≡ published_client now_us document
  pub bound : document.client_id ≡ url
  pub named : document.client_name ≢ ""
  pub redirects : All Acceptable document.redirect_uris
  pub some_redirect : document.redirect_uris ≢ []
  pub small : within_bounds c ≡ true
