-- ===== src/Oauth/Token.antt =====
-- crates/mcpmem-oauth/src/token.rs: redeeming codes and refresh tokens, revocation, validation.
-- The two values that `new_token` draws for an answer are arguments.
pub mod Exchange
pub mod Pairs
mod Examples
use mcpmem.Prelude.{
  ℕ, ◌+◌, ◌*◌, ◌/◌, String, Bool, true, false, not, Option, none, some, List, [], ◌∷◌, ◌==◌,
  text_eq, if◌then◌else◌, Result, ok, err,
}
use mcpmem.Oauth.Store.Records.{
  Store, Grant, StoreError, CodeGrant, CodeOutcome, RefreshOutcome, access, refresh,
}
use mcpmem.Oauth.Store.{
  Crypto, put_token, find_access, take_code, take_refresh, revoke_family, family_of,
}
use Prim.Native.String

abbrev pub access_ttl_us : ℕ
access_ttl_us = 60 * 60 * 1_000_000

abbrev pub refresh_ttl_us : ℕ
refresh_ttl_us = 30 * 24 * 60 * 60 * 1_000_000

pub record TokenResponse : Type 0 where
  pub access_token : String
  pub token_type : String
  pub expires_in : ℕ
  pub refresh_token : String
  pub scope : String

pub data TokenError : Type 0 where
  invalid_request : String → TokenError
  unsupported_grant_type : TokenError
  invalid_grant : String → TokenError
  store : StoreError → TokenError

abbrev pub code : TokenError → String
code (invalid_request _) = "invalid_request"
code unsupported_grant_type = "unsupported_grant_type"
code (invalid_grant _) = "invalid_grant"
code (store _) = "server_error"

pub record CodeExchange : Type 0 where
  pub code : String
  pub code_verifier : String
  pub client_id : String
  pub redirect_uri : String

pub record RefreshExchange : Type 0 where
  pub refresh_token : String
  pub client_id : String

-- `scopes.join(" ")`
pub join : List String → String
join [] = ""
join (s ∷ []) = s
join (s ∷ t ∷ ts) = let rest = join (t ∷ ts) in String.◌++◌ s (String.◌++◌ " " rest)

abbrev response : String → String → Grant → TokenResponse
response access_token refresh_token g = record {
  access_token = access_token;
  token_type = "Bearer";
  expires_in = access_ttl_us / 1_000_000;
  refresh_token = refresh_token;
  scope = join g.scopes;
}

abbrev Answer : Type 0
Answer = Store × Result TokenError TokenResponse

abbrev refuse : Store → String → Answer
refuse s reason = (s, err (invalid_grant reason))

-- `store.put_token(…)?`
abbrev after_write : (Store → Answer) → Store × Result StoreError (Unit {0}) → Answer
after_write next (s, ok _) = next s
after_write next (s, err e) = (s, err (store e))

module _ (crypto : Crypto) (access_token refresh_token : String) where
  -- The second write of `issue`, and its answer.
  pub issue_refresh : Grant → ℕ → Store → Answer
  issue_refresh g now_us s =
      after_write (λ s'. (s', ok (response access_token refresh_token g)))
        (put_token crypto refresh_token refresh g now_us (now_us + refresh_ttl_us) s)

  pub issue : Grant → ℕ → Store → Answer
  unfolding issue_refresh
  issue g now_us s =
      after_write (issue_refresh g now_us)
        (put_token crypto access_token access g now_us (now_us + access_ttl_us) s)

  -- What follows `take_code`: the checks on a code that was live, and is spent by now.
  pub exchange : CodeExchange → ℕ → Store × CodeOutcome → Answer
  exchange params now_us (s, CodeOutcome.valid c) =
      if not (crypto.s256_challenge params.code_verifier == c.code_challenge)
      then refuse s "the code verifier does not match the stored challenge"
      else if not (params.client_id == c.grant.client_id)
      then refuse s "this code was issued to another client"
      else if not (params.redirect_uri == c.redirect_uri)
      then refuse s "the redirect URI does not match the one the code was issued for"
      else issue c.grant now_us s
  exchange params now_us (s, CodeOutcome.replayed) =
      refuse s "this authorization code was already redeemed"
  exchange params now_us (s, CodeOutcome.unknown) =
      refuse s "no live authorization code carries this value"

  pub grant_authorization_code : CodeExchange → ℕ → Store → Answer
  unfolding exchange
  grant_authorization_code params now_us s =
      exchange params now_us (take_code crypto params.code now_us s)

  -- What follows `take_refresh`.
  pub renew : RefreshExchange → ℕ → Store × RefreshOutcome → Answer
  renew params now_us (s, RefreshOutcome.unknown) =
      refuse s "no live refresh token carries this value"
  renew params now_us (s, RefreshOutcome.replayed) = refuse s "this refresh token was already spent"
  renew params now_us (s, RefreshOutcome.valid g) =
      if not (params.client_id == g.client_id)
      then refuse (revoke_family g.family s) "this refresh token was issued to another client"
      else issue g now_us s

  pub grant_refresh : RefreshExchange → ℕ → Store → Answer
  unfolding renew
  grant_refresh params now_us s =
      renew params now_us (take_refresh crypto params.refresh_token now_us s)

module _ (crypto : Crypto) where
  pub revoke : String → ℕ → Store → Store
  revoke token now_us s = elim (family_of crypto token now_us s) [
    | none ↦ s
    | some family ↦ revoke_family family s
  ]

  pub validate : Store → String → String → ℕ → Option Grant
  validate s token resource now_us = elim (find_access crypto token now_us s) [
    | none ↦ none
    | some g ↦ if not (g.resource == resource) then none else some g
  ]
