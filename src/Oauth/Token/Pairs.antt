-- ===== src/Oauth/Token/Pairs.antt =====
-- The pair of tokens that an answer carries works, and revoking either half ends it.
use mcpmem.Prelude.{
  ℕ, ◌+◌, ◌<◌, String, false, ◌≡◌, ◌≢◌, inl, inr, some, List, ◌∷◌, All, ◌==◌, text_eq, exists_where,
  first_where, first_where-same_key, first_where-test, arith, ltb, ok, ◌&&◌, Option-cases, Keyed,
}
use mcpmem.Oauth.Store.Records.{Store, Grant, TokenKind, TokenRow, access, refresh, RefreshOutcome}
use mcpmem.Oauth.Store.{
  Crypto, find_access, take_refresh, put_token, family_of, revoke_family, live_token,
}
use mcpmem.Oauth.Store.Trace.{Op, run, AvoidsFamily}
use mcpmem.Oauth.Store.Rows.{token_row}
use mcpmem.Oauth.Store.Revocation.{Dead, revoke_family-Dead, run-Dead, Works, Dead-Works}
use mcpmem.Oauth.Token.{TokenResponse, issue, validate, revoke, access_ttl_us, refresh_ttl_us}

-- What a successful write leaves.
put_token-ok :
    (crypto : Crypto) (t : String) (k : TokenKind) (g : Grant) (c e : ℕ) (s : Store)
    → (put_token crypto t k g c e s).1 ≡ ok tt
    → ((put_token crypto t k g c e s).0
        ≡ record s { tokens = token_row crypto t k g c e ∷ s.tokens })
      × (exists_where (λ r. r.token_digest == crypto.digest t) s.tokens ≡ false)
unfolding put_token
put_token-ok crypto t k g c e s h = ground arith

module _ (crypto : Crypto) (a r : String) (g : Grant) (now : ℕ) (s : Store) where
  abbrev access_row : TokenRow
  access_row = token_row crypto a access g now (now + access_ttl_us)

  abbrev refresh_row : TokenRow
  refresh_row = token_row crypto r refresh g now (now + refresh_ttl_us)

  record Issued (resp : TokenResponse) : Type 0 where
    after : (issue crypto a r g now s).0.tokens ≡ refresh_row ∷ access_row ∷ s.tokens
    access_token : resp.access_token ≡ a
    refresh_token : resp.refresh_token ≡ r
    differ : crypto.digest a ≢ crypto.digest r

  issue-Issued : (resp : TokenResponse) → (issue crypto a r g now s).1 ≡ ok resp → Issued resp
  unfolding issue put_token
  issue-Issued resp h = record {
    after = ground arith;
    access_token = ground arith;
    refresh_token = ground arith;
    differ = ground arith;
  }

  -- The pair that `issue` answers with is accepted for as long as the two tokens last: the access
  -- token as a bearer of the grant at its resource, the refresh token for one redemption.
  pub issue-validate :
      (resp : TokenResponse) (soon later : ℕ)
      → (issue crypto a r g now s).1 ≡ ok resp
      → soon < now + access_ttl_us
      → later < now + refresh_ttl_us
      → (validate crypto (issue crypto a r g now s).0 resp.access_token g.resource soon ≡ some g)
        × ((take_refresh crypto resp.refresh_token later (issue crypto a r g now s).0).1
            ≡ RefreshOutcome.valid g)
  unfolding validate find_access take_refresh
  issue-validate resp soon later h lt lt' =
      let i = issue-Issued resp h in
      let bearer : first_where (live_token crypto access resp.access_token soon)
            (issue crypto a r g now s).0.tokens
          ≡ some access_row =
        rw (i.after, i.access_token) (ground (arith, i.differ)) in
      let renewal : first_where (live_token crypto refresh resp.refresh_token later)
            (issue crypto a r g now s).0.tokens
          ≡ some refresh_row =
        rw (i.after, i.refresh_token) (ground arith) in
      (ground (arith, bearer), ground (arith, renewal))

find_access-row :
    (crypto : Crypto) (t : String) (now : ℕ) (s : Store) (g : Grant)
    → find_access crypto t now s ≡ some g
    → (r : TokenRow) × (first_where (live_token crypto access t now) s.tokens ≡ some r)
      × (r.grant ≡ g)
unfolding find_access
find_access-row crypto t now s g h =
    elim (Option-cases (first_where (live_token crypto access t now) s.tokens)) [
      | inl e ↦ let no_row : ⊥ = ground arith in absurd no_row
      | inr (r, e) ↦ (r, e, ground arith)
    ]

-- The row that answers a token also names its family.
family_of-live :
    (crypto : Crypto) (t : String) (now : ℕ) (ts : List TokenRow) (r : TokenRow)
    → Keyed (λ x. x.token_digest) ts
    → first_where (live_token crypto access t now) ts ≡ some r
    → first_where (λ x. x.token_digest == crypto.digest t && ltb now x.expires_us) ts ≡ some r
family_of-live crypto t now ts r k h =
    let shown = first_where-test (live_token crypto access t now) ts h in
    let digest : r.token_digest ≡ crypto.digest t = ground arith in
    first_where-same_key (λ (x : TokenRow). x.token_digest) (live_token crypto access t now)
      (λ x. x.token_digest == crypto.digest t && ltb now x.expires_us) ts r (λ x met. ground arith)
      (ground arith) k h

-- Where the digests of the tokens are distinct, revoking a bearer token that is accepted ends its
-- family: no token works with a grant of the family afterwards, neither as a bearer nor as a refresh
-- token that is redeemed, until a token is stored in the family again.
pub revoke_ends_family :
    (crypto : Crypto) (t resource other : String) (now later : ℕ) (s : Store) (g g' : Grant)
    (after : List Op)
    → Keyed (λ r. r.token_digest) s.tokens
    → validate crypto s t resource now ≡ some g
    → All (AvoidsFamily g.family) after
    → Works crypto other later (run crypto after (revoke crypto t now s)) g'
    → g'.family ≢ g.family
unfolding validate revoke family_of
revoke_ends_family crypto t resource other now later s g g' after keyed h quiet answered =
    let accepted : find_access crypto t now s ≡ some g = ground arith in
    let (r, found, is_g) = find_access-row crypto t now s g accepted in
    let named = family_of-live crypto t now s.tokens r keyed found in
    let left : revoke crypto t now s ≡ revoke_family g.family s = ground (arith, named) in
    let dead : All (Dead g.family) (revoke crypto t now s).tokens =
      rw left (revoke_family-Dead g.family s) in
    Dead-Works crypto g.family other later _ g' (run-Dead crypto g.family after _ quiet dead)
      answered
