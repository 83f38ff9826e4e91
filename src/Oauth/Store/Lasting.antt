-- ===== src/Oauth/Store/Lasting.antt =====
-- A spent refresh token keeps its row, until the row expires and a sweep deletes it.
use mcpmem.Prelude.{
  ℕ, ◌≤◌, String, Bool, true, ◌≡◌, refl, some, List, [], ◌∷◌, All, if_case, if◌then◌else◌,
  Option-cases, inl, inr, update_where, ◌==◌, text_eq, exists_where, first_where,
  first_where-update, first_where-spared, Result, arith, leb,
}
use mcpmem.Oauth.Store.Records.{
  Store, Grant, TokenKind, TokenRow, code, refresh, StoreError, CodeOutcome, RefreshOutcome,
}
use mcpmem.Oauth.Store.{
  Crypto, put_client, touch_client, put_login, take_login, put_code, take_code, put_token,
  take_refresh, revoke_family, revoke_families, revoke_principal, sweep, evict_clients, live_code,
  live_token, families_of,
}
use mcpmem.Oauth.Store.Trace.{
  Op, puts_client, touches_client, puts_login, takes_login, puts_code, takes_code, puts_token,
  takes_refresh, revokes_family, revokes_principal, sweeps, evicts_clients, step, run, AvoidsToken,
  SweepsBefore,
}
use mcpmem.Oauth.Store.Rows.{revoked_row, spent_row}

module _ (until : ℕ) (g : Grant) where
  -- A redeemed refresh token of the grant, which lasts until then.
  abbrev pub Redeemed : TokenRow → Type 0
  Redeemed r = (r.grant ≡ g) × (r.spent ≡ true) × (r.kind ≡ code refresh) × (until ≤ r.expires_us)

  -- The row under the digest is one.
  abbrev pub Lasts : String → List TokenRow → Type 0
  Lasts d ts = (r : TokenRow) × (first_where (λ q. q.token_digest == d) ts ≡ some r) × Redeemed r

  module _ (d : String) where
    Lasts-update :
        (hit : TokenRow → Bool) (set : TokenRow → TokenRow) (ts : List TokenRow)
        → ((r : TokenRow) → (set r).token_digest ≡ r.token_digest)
        → ((r : TokenRow) → Redeemed r → Redeemed (set r))
        → Lasts d ts
        → Lasts d (update_where hit set ts)
    Lasts-update hit set ts same kept (r, found, is) = (
      if hit r then set r else r,
      first_where-update (λ (q : TokenRow). q.token_digest == d) hit set ts r
          (λ q. rw (same q) refl) found,
      if_case Redeemed (hit r) (λ _. kept r is) (λ _. is),
    )

    revoke_family-Lasts :
        (f : String) (s : Store) → Lasts d s.tokens → Lasts d (revoke_family f s).tokens
    unfolding revoke_family
    revoke_family-Lasts f s h =
        Lasts-update (λ r. r.grant.family == f) revoked_row s.tokens (λ r. refl) (λ r is. is) h

    revoke_families-Lasts :
        (fs : List String) (s : Store) → Lasts d s.tokens → Lasts d (revoke_families fs s).tokens
    unfolding revoke_families
    revoke_families-Lasts [] s h = h
    revoke_families-Lasts (f ∷ fs) s h =
        revoke_families-Lasts fs (revoke_family f s) (revoke_family-Lasts f s h)

    module _ (crypto : Crypto) where
      take_refresh-Lasts :
          (t : String) (now : ℕ) (s : Store)
          → Lasts d s.tokens
          → Lasts d (take_refresh crypto t now s).0.tokens
      unfolding take_refresh
      take_refresh-Lasts t now s h =
          elim (Option-cases (first_where (live_token crypto refresh t now) s.tokens)) [
            | inl e ↦ rw (e, take_refresh) h
            | inr (r, e) ↦
                rw (e, take_refresh)
                  (if_case (λ (q : Store × RefreshOutcome). Lasts d q.0.tokens) r.spent
                    (λ _. revoke_family-Lasts r.grant.family s h)
                    (λ _.
                      Lasts-update (λ x. x.token_digest == crypto.digest t) spent_row s.tokens
                        (λ x. refl) (λ x is. (is.0, refl, is.2, is.3)) h))
          ]

      take_code-Lasts :
          (c : String) (now : ℕ) (s : Store)
          → Lasts d s.tokens
          → Lasts d (take_code crypto c now s).0.tokens
      unfolding take_code
      take_code-Lasts c now s h =
          elim (Option-cases (first_where (live_code crypto c now) s.codes)) [
            | inl e ↦ rw (e, take_code) h
            | inr (r, e) ↦
                rw (e, take_code)
                  (if_case (λ (q : Store × CodeOutcome). Lasts d q.0.tokens) r.spent
                    (λ _. revoke_family-Lasts r.code.grant.family s h) (λ _. h))
          ]

      put_token-Lasts :
          (t : String) (k : TokenKind) (g' : Grant) (c e : ℕ) (s : Store)
          → AvoidsToken crypto d (puts_token t k g' c e)
          → Lasts d s.tokens
          → Lasts d (put_token crypto t k g' c e s).0.tokens
      unfolding put_token
      put_token-Lasts t k g' c e s other (r, found, is) =
          if_case (λ (q : Store × Result StoreError (Unit {0})). Lasts d q.0.tokens)
            (exists_where (λ r. r.token_digest == crypto.digest t) s.tokens) (λ _. (r, found, is))
            (λ _. (r, ground (arith, other), is))

      step-Lasts :
          (op : Op) (s : Store)
          → AvoidsToken crypto d op
          → SweepsBefore until op
          → Lasts d s.tokens
          → Lasts d (step crypto op s).tokens
      unfolding step put_client touch_client put_login take_login put_code revoke_principal sweep
          evict_clients
      step-Lasts (puts_client c) s p b h =
          if_case (λ (q : Store). Lasts d q.tokens)
            (exists_where (λ r. r.client_id == c.client_id) s.clients) (λ _. h) (λ _. h)
      step-Lasts (touches_client id now) s p b h = h
      step-Lasts (puts_login l) s p b h =
          if_case (λ (q : Store × Result StoreError (Unit {0})). Lasts d q.0.tokens)
            (exists_where (λ r. r.state == l.state) s.logins) (λ _. h) (λ _. h)
      step-Lasts (takes_login state now) s p b h = h
      step-Lasts (puts_code c g' t e) s p b h =
          if_case (λ (q : Store × Result StoreError (Unit {0})). Lasts d q.0.tokens)
            (exists_where (λ r. r.code_digest == crypto.digest c) s.codes) (λ _. h) (λ _. h)
      step-Lasts (takes_code c now) s p b h = take_code-Lasts c now s h
      step-Lasts (puts_token t k g' c e) s p b h = put_token-Lasts t k g' c e s p h
      step-Lasts (takes_refresh t now) s p b h = take_refresh-Lasts t now s h
      step-Lasts (revokes_family f) s p b h = revoke_family-Lasts f s h
      step-Lasts (revokes_principal q) s p b h = revoke_families-Lasts (families_of q s.tokens) s h
      step-Lasts (sweeps now) s p b (r, found, is) = (
        r,
        first_where-spared (λ (q : TokenRow). q.token_digest == d) (λ q. leb q.expires_us now)
            s.tokens r found (ground (arith, is.3)),
        is,
      )
      step-Lasts (evicts_clients now idle) s p b h = h

      pub run-Lasts :
          (ops : List Op) (s : Store)
          → All (AvoidsToken crypto d) ops
          → All (SweepsBefore until) ops
          → Lasts d s.tokens
          → Lasts d (run crypto ops s).tokens
      unfolding run
      run-Lasts [] s ps bs h = h
      run-Lasts (op ∷ ops) s (p, ps) (b, bs) h =
          run-Lasts ops (step crypto op s) ps bs (step-Lasts op s p b h)
