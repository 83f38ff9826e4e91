-- ===== src/Oauth/Consent/Approved.antt =====
-- crates/mcpmem-oauth/src/consent.rs: what an approval rests on, and what it grants.
use mcpmem.Prelude.{
  ℕ, ◌≡◌, ◌≢◌, true, String, some, List, [], text_eq, first_where, delete_where, select, All,
}
use mcpmem.Oauth.Store.Records.{Store, LoginRecord}
use mcpmem.Oauth.Store.{Crypto, live_login}
use mcpmem.Oauth.Consent.{has}

-- The login is in flight, the form is the human's who authenticated for it, and it is spent.
pub record Verified (crypto : Crypto) (state csrf : String) (now_us : ℕ) (s s' : Store)
    (login : LoginRecord) (principal : String) : Type 0 where
  pub in_flight : first_where (live_login state now_us) s.logins ≡ some login
  pub own_form : crypto.digest csrf ≡ crypto.digest login.csrf
  pub authenticated : login.principal ≡ some principal
  pub spent : s' ≡ record s { logins = delete_where (live_login state now_us) s.logins }

-- What is granted was offered to the human and approved, and is not nothing.
pub record Granted (approved : List String) (login : LoginRecord) (scopes : List String)
    : Type 0 where
  pub offer : All (λ scope. has login.scopes scope ≡ true) approved
  pub chosen : scopes ≡ select (has approved) login.scopes
  pub something : scopes ≢ []
