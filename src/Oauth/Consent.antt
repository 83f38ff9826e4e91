-- ===== src/Oauth/Consent.antt =====
-- crates/mcpmem-oauth/src/consent.rs: the decision of the human about a login in flight. Each call of the
-- store is a transaction of its own; here those of one decision follow each other. The page and its
-- template are not modelled, the escaping of what is put into it is.
pub mod Approved
pub mod Escape
mod Examples
use mcpmem.Prelude.{
  ℕ, ◌+◌, ◌*◌, Bool, true, false, ◌&&◌, ◌||◌, not, String, Option, none, some, List, [], ◌∷◌, ◌++◌,
  ◌==◌, text_eq, if◌then◌else◌, Result, ok, err, ◌>>◌, ◌>>=◌, refuse_if, exists_where, select,
}
use mcpmem.Oauth.Store.Records.{Store, StoreError, LoginRecord, CodeGrant, Grant}
use mcpmem.Oauth.Store.{Crypto, put_login, take_login, put_code}

abbrev pub code_ttl_us : ℕ
code_ttl_us = 60 * 1_000_000

pub record Approval : Type 0 where
  pub code : String
  pub redirect_uri : String
  pub client_state : Option String

pub record Denial : Type 0 where
  pub redirect_uri : String
  pub client_state : Option String

pub data ConsentError : Type 0 where
  unknown_login bad_csrf not_authenticated not_offered nothing_approved : ConsentError
  store : StoreError → ConsentError

abbrev pub has : List String → String → Bool
has scopes scope = exists_where (λ s. s == scope) scopes

unfoldable pub offered_from : List String → List String → List String → List String
offered_from out held [] = out
offered_from out held (scope ∷ requested) =
    offered_from (if has held scope && not (has out scope) then out ++ (scope ∷ []) else out) held
      requested

unfoldable pub offered : List String → List String → List String
unfolding offered_from
offered requested held = offered_from [] held requested

abbrev pub csrf_matches : Crypto → String → String → Bool
csrf_matches crypto presented expected = crypto.digest presented == crypto.digest expected

abbrev pub restore : LoginRecord → ConsentError → Store → Store × ConsentError
restore login e s =
    let (s', put) = put_login login s in (s', elim put [ ok _ ↦ e | err failed ↦ store failed ])

-- What the login does not allow, before it is spent.
abbrev pub verified : Crypto → String → LoginRecord → Result ConsentError String
verified crypto csrf login =
    refuse_if (not (csrf_matches crypto csrf login.csrf)) bad_csrf
    >> elim login.principal [ none ↦ err not_authenticated | some principal ↦ ok principal ]

unfoldable pub take_verified :
    Crypto → String → String → ℕ → Store → Store × Result ConsentError (LoginRecord × String)
take_verified crypto state csrf now_us s =
    let (s', taken) = take_login state now_us s in
    elim taken [
      | none ↦ (s', err unknown_login)
      | some login ↦ elim (verified crypto csrf login) [
        | err e ↦ let (s'', e') = restore login e s' in (s'', err e')
        | ok principal ↦ (s', ok (login, principal))
      ]
    ]

abbrev pub not_empty : List String → Result ConsentError (List String)
not_empty [] = err nothing_approved
not_empty (scope ∷ scopes) = ok (scope ∷ scopes)

-- The scopes of the login that were approved, in its order.
abbrev pub granted : List String → LoginRecord → Result ConsentError (List String)
granted approved login =
    refuse_if (exists_where (λ s. not (has login.scopes s)) approved) not_offered
    >> not_empty (select (has approved) login.scopes)

abbrev pub code_grant : LoginRecord → String → List String → String → CodeGrant
code_grant login principal scopes family = record {
  grant = record {
    client_id = login.client_id;
    principal = principal;
    scopes = scopes;
    resource = login.resource;
    family = family;
  };
  redirect_uri = login.redirect_uri;
  code_challenge = login.code_challenge;
}

abbrev pub approval : String → LoginRecord → Approval
approval code login = record {
  code = code;
  redirect_uri = login.redirect_uri;
  client_state = login.client_state;
}

abbrev pub put_grant :
    Crypto → String → LoginRecord → CodeGrant → ℕ → Store → Store × Result ConsentError Approval
put_grant crypto code login g now_us s =
    let (s', put) = put_code crypto code g now_us (now_us + code_ttl_us) s in
    (s', elim put [ err e ↦ err (store e) | ok _ ↦ ok (approval code login) ])

-- `code` and `family` are what `new_token` draws.
unfoldable pub approve :
    Crypto
    → String
    → String
    → String
    → String
    → List String
    → ℕ
    → Store
    → Store × Result ConsentError Approval
unfolding take_verified
approve crypto code family state csrf approved now_us s =
    let (s', taken) = take_verified crypto state csrf now_us s in
    elim taken [
      | err e ↦ (s', err e)
      | ok (login, principal) ↦ elim (granted approved login) [
        | err e ↦ let (s'', e') = restore login e s' in (s'', err e')
        | ok scopes ↦
            put_grant crypto code login (code_grant login principal scopes family) now_us s'
      ]
    ]

unfoldable pub deny : Crypto → String → String → ℕ → Store → Store × Result ConsentError Denial
unfolding take_verified
deny crypto state csrf now_us s =
    let (s', taken) = take_verified crypto state csrf now_us s in
    elim taken [
      | err e ↦ (s', err e)
      | ok (login, principal) ↦
          (s', ok (record { redirect_uri = login.redirect_uri; client_state = login.client_state }))
    ]
