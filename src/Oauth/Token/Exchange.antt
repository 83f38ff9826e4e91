-- ===== src/Oauth/Token/Exchange.antt =====
-- Redeeming an authorization code: what a success rests on, and that every attempt burns the code.
use mcpmem.Prelude.{
  ℕ, ◌+◌, ◌<◌, String, ◌≡◌, refl, ◌≢◌, ◌⊎◌, inl, inr, some, List, All, text_eq, arith, ok,
}
use mcpmem.Oauth.Store.Records.{Store, Grant, CodeGrant, CodeOutcome, RefreshOutcome}
use mcpmem.Oauth.Store.{Crypto, find_access, take_code, take_refresh, put_token, revoke_family}
use mcpmem.Oauth.Store.Trace.{Op, run, AvoidsCode, AvoidsFamily}
use mcpmem.Oauth.Store.SingleUse.{SpentCode, take_code-Spent, Spent-take_code, run-SpentCode}
use mcpmem.Oauth.Store.Revocation.{Dead, revoke_family-Dead, run-Dead, Dead-find_access}
use mcpmem.Oauth.Token.Pairs.{issue-validate}
use mcpmem.Oauth.Token.{
  TokenResponse, CodeExchange, RefreshExchange, issue, issue_refresh, exchange,
  grant_authorization_code, grant_refresh, renew, validate, access_ttl_us,
}

CodeOutcome-cases :
    (o : CodeOutcome)
    → ((c : CodeGrant) × (o ≡ CodeOutcome.valid c)) ⊎ ((c : CodeGrant) → o ≢ CodeOutcome.valid c)
CodeOutcome-cases (CodeOutcome.valid c) = inl (c, refl)
CodeOutcome-cases CodeOutcome.replayed = inr (λ c e. cc)
CodeOutcome-cases CodeOutcome.unknown = inr (λ c e. cc)

module _ (crypto : Crypto) (a r : String) where
  issue_refresh-codes :
      (g : Grant) (now : ℕ) (s : Store) → (issue_refresh crypto a r g now s).0.codes ≡ s.codes
  unfolding issue_refresh put_token
  issue_refresh-codes g now s = ground arith

  issue-codes : (g : Grant) (now : ℕ) (s : Store) → (issue crypto a r g now s).0.codes ≡ s.codes
  unfolding issue put_token
  issue-codes g now s = ground arith

  exchange-codes :
      (p : CodeExchange) (now : ℕ) (s : Store) (o : CodeOutcome)
      → (exchange crypto a r p now (s, o)).0.codes ≡ s.codes
  unfolding exchange
  exchange-codes p now s (CodeOutcome.valid c) = ground (arith, issue-codes c.grant now s)
  exchange-codes p now s CodeOutcome.replayed = refl
  exchange-codes p now s CodeOutcome.unknown = refl

  exchange-ok :
      (p : CodeExchange) (now : ℕ) (s : Store) (o : CodeOutcome) (resp : TokenResponse)
      → (exchange crypto a r p now (s, o)).1 ≡ ok resp
      → (c : CodeGrant) × (o ≡ CodeOutcome.valid c)
        × (crypto.s256_challenge p.code_verifier ≡ c.code_challenge)
        × (p.client_id ≡ c.grant.client_id)
        × (p.redirect_uri ≡ c.redirect_uri)
        × (exchange crypto a r p now (s, o) ≡ issue crypto a r c.grant now s)
  unfolding exchange
  exchange-ok p now s (CodeOutcome.valid c) resp h =
      (c, refl, ground arith, ground arith, ground arith, ground arith)
  exchange-ok p now s CodeOutcome.replayed resp h = cc
  exchange-ok p now s CodeOutcome.unknown resp h = cc

  -- A code is exchanged for tokens only if it was live and unspent, the verifier hashes to the
  -- challenge stored with it, and the client and the redirect URI are those that it was issued for.
  -- The access token of the answer then stands for the code's grant, for an hour.
  pub grant_authorization_code_sound :
      (p : CodeExchange) (now later : ℕ) (s : Store) (resp : TokenResponse)
      → (grant_authorization_code crypto a r p now s).1 ≡ ok resp
      → later < now + access_ttl_us
      → (c : CodeGrant) × ((take_code crypto p.code now s).1 ≡ CodeOutcome.valid c)
        × (crypto.s256_challenge p.code_verifier ≡ c.code_challenge)
        × (p.client_id ≡ c.grant.client_id)
        × (p.redirect_uri ≡ c.redirect_uri)
        × (validate crypto
              (grant_authorization_code crypto a r p now s).0
              resp.access_token
              c.grant.resource
              later
            ≡ some c.grant)
  unfolding grant_authorization_code
  grant_authorization_code_sound p now later s resp h lt =
      let taken = take_code crypto p.code now s in
      let (c, valid, verifier, client, uri, issued) = exchange-ok p now taken.0 taken.1 resp h in
      let answer : (issue crypto a r c.grant now taken.0).1 ≡ ok resp = rw (← issued) h in
      (
        c,
        valid,
        verifier,
        client,
        uri,
        rw issued
            (issue-validate crypto a r c.grant now taken.0 resp later now answer lt
              (omega arith)).0,
      )

-- An attempt to exchange a live code burns it, whether the attempt succeeds or fails: no later
-- attempt with the same code succeeds, after any operations that store no code under its digest.
pub grant_authorization_code_once :
    (crypto : Crypto) (a r a' r' : String) (p p' : CodeExchange) (now later : ℕ) (s : Store)
    (c : CodeGrant) (ops : List Op) (resp : TokenResponse)
    → (take_code crypto p.code now s).1 ≡ CodeOutcome.valid c
    → p'.code ≡ p.code
    → All (AvoidsCode crypto (crypto.digest p.code)) ops
    → (grant_authorization_code crypto a' r' p' later
        (run crypto ops (grant_authorization_code crypto a r p now s).0)).1
      ≢ ok resp
unfolding grant_authorization_code
grant_authorization_code_once crypto a r a' r' p p' now later s c ops resp h same avoids again =
    let taken = take_code crypto p.code now s in
    let spent : All (SpentCode d) (grant_authorization_code crypto a r p now s).0.codes =
      rw (exchange-codes crypto a r p now taken.0 taken.1)
        (take_code-Spent crypto p.code now s c h) in
    let s' = run crypto ops (grant_authorization_code crypto a r p now s).0 in
    let later_spent : All (SpentCode d) s'.codes = run-SpentCode crypto d _ ops avoids spent in
    let retaken = take_code crypto p'.code later s' in
    let (c', valid, _, _, _, _) =
      exchange-ok crypto a' r' p' later retaken.0 retaken.1 resp again in
    Spent-take_code crypto p'.code later s' c' (rw same later_spent) valid
  where
    d : String
    d = crypto.digest p.code

-- A live refresh token that another client presents is refused, and ends its family: no bearer token
-- that is accepted afterwards is of the family, until a token is stored in the family again.
pub grant_refresh_other_client :
    (crypto : Crypto) (a r bearer : String) (p : RefreshExchange) (now later : ℕ) (s : Store)
    (g g' : Grant) (after : List Op) (resp : TokenResponse)
    → (take_refresh crypto p.refresh_token now s).1 ≡ RefreshOutcome.valid g
    → p.client_id ≢ g.client_id
    → All (AvoidsFamily g.family) after
    → g'.family ≡ g.family
    → ((grant_refresh crypto a r p now s).1 ≢ ok resp)
      × (find_access crypto bearer later (run crypto after (grant_refresh crypto a r p now s).0)
          ≢ some g')
unfolding grant_refresh renew
grant_refresh_other_client crypto a r bearer p now later s g g' after resp h other quiet same =
    let left : (grant_refresh crypto a r p now s).0
        ≡ revoke_family g.family (take_refresh crypto p.refresh_token now s).0 =
      ground arith in
    let dead : All (Dead g.family) (grant_refresh crypto a r p now s).0.tokens =
      rw left (revoke_family-Dead g.family _) in
    (
      λ e. ground arith,
      λ e.
          Dead-find_access crypto g.family bearer later _ g'
            (run-Dead crypto g.family after _ quiet dead) e same,
    )
