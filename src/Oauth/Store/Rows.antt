-- ===== src/Oauth/Store/Rows.antt =====
-- How an operation changes the token rows: a row predicate that every rewriting
-- statement keeps, and that a new row meets, holds after the operation.
use mcpmem.Prelude.{
  ℕ, String, true, false, List, [], ◌∷◌, All, if_case, Option-cases, inl, inr, All-update,
  All-delete, ◌==◌, text_eq, exists_where, first_where, Result, leb,
}
use mcpmem.Oauth.Store.Records.{
  Store, Grant, TokenKind, TokenRow, code, refresh, StoreError, CodeOutcome, RefreshOutcome,
}
use mcpmem.Oauth.Store.{
  Crypto, put_client, touch_client, put_login, take_login, put_code, take_code, put_token,
  take_refresh, revoke_family, revoke_families, revoke_principal, sweep, evict_clients, live_code,
  live_token, families_of,
}
use mcpmem.Oauth.Store.Trace.{
  Op, puts_client, touches_client, puts_login, takes_login, puts_code, takes_code, puts_token,
  takes_refresh, revokes_family, revokes_principal, sweeps, evicts_clients, step, run,
}

-- The row that `put_token` inserts.
abbrev pub token_row : Crypto → String → TokenKind → Grant → ℕ → ℕ → TokenRow
token_row crypto token kind g created_us expires_us = record {
  token_digest = crypto.digest token;
  kind = code kind;
  grant = g;
  spent = false;
  revoked = false;
  created_us = created_us;
  expires_us = expires_us;
}

abbrev pub revoked_row : TokenRow → TokenRow
revoked_row r = record r { revoked = true }

abbrev pub spent_row : TokenRow → TokenRow
spent_row r = record r { spent = true }

-- What revoking and spending keep.
pub record IsStable {ℓ} (P : TokenRow → Type ℓ) : Type ℓ where
  pub revoked : (r : TokenRow) → P r → P (revoked_row r)
  pub spent : (r : TokenRow) → P r → P (spent_row r)

module _ {ℓ} (P : TokenRow → Type ℓ) (stable : IsStable P) where
  pub revoke_family-All :
      (f : String) (s : Store) → All P s.tokens → All P (revoke_family f s).tokens
  unfolding revoke_family
  revoke_family-All f s a =
      All-update P P (λ r. r.grant.family == f) revoked_row s.tokens (λ r p _. stable.revoked r p)
        (λ r p _. p) a

  pub revoke_families-All :
      (fs : List String) (s : Store) → All P s.tokens → All P (revoke_families fs s).tokens
  unfolding revoke_families
  revoke_families-All [] s a = a
  revoke_families-All (f ∷ fs) s a =
      revoke_families-All fs (revoke_family f s) (revoke_family-All f s a)

  pub take_refresh-All :
      (crypto : Crypto) (t : String) (now : ℕ) (s : Store)
      → All P s.tokens
      → All P (take_refresh crypto t now s).0.tokens
  unfolding take_refresh
  take_refresh-All crypto t now s a =
      elim (Option-cases (first_where (live_token crypto refresh t now) s.tokens)) [
        | inl e ↦ rw (e, take_refresh) a
        | inr (r, e) ↦
            rw (e, take_refresh)
              (if_case (λ (q : Store × RefreshOutcome). All P q.0.tokens) r.spent
                (λ _. revoke_family-All r.grant.family s a)
                (λ _.
                  All-update P P (λ x. x.token_digest == crypto.digest t) spent_row s.tokens
                    (λ x p _. stable.spent x p) (λ x p _. p) a))
      ]

  put_token-All :
      (crypto : Crypto) (t : String) (k : TokenKind) (g : Grant) (c e : ℕ) (s : Store)
      → P (token_row crypto t k g c e)
      → All P s.tokens
      → All P (put_token crypto t k g c e s).0.tokens
  unfolding put_token
  put_token-All crypto t k g c e s p a =
      if_case (λ (q : Store × Result StoreError (Unit {0})). All P q.0.tokens)
        (exists_where (λ r. r.token_digest == crypto.digest t) s.tokens) (λ _. a) (λ _. (p, a))

  take_code-All :
      (crypto : Crypto) (c : String) (now : ℕ) (s : Store)
      → All P s.tokens
      → All P (take_code crypto c now s).0.tokens
  unfolding take_code
  take_code-All crypto c now s a =
      elim (Option-cases (first_where (live_code crypto c now) s.codes)) [
        | inl e ↦ rw (e, take_code) a
        | inr (r, e) ↦
            rw (e, take_code)
              (if_case (λ (q : Store × CodeOutcome). All P q.0.tokens) r.spent
                (λ _. revoke_family-All r.code.grant.family s a) (λ _. a))
      ]

  -- The row that an operation may insert meets the predicate.
  abbrev pub Adds : Crypto → Op → Type ℓ
  Adds crypto (puts_token t k g c e) = P (token_row crypto t k g c e)
  Adds crypto (puts_client _) = Unit
  Adds crypto _ = Unit

  pub step-All :
      (crypto : Crypto) (op : Op) (s : Store)
      → Adds crypto op
      → All P s.tokens
      → All P (step crypto op s).tokens
  unfolding step put_client touch_client put_login take_login put_code revoke_principal sweep
      evict_clients
  step-All crypto (puts_client c) s p a =
      if_case (λ (q : Store). All P q.tokens)
        (exists_where (λ r. r.client_id == c.client_id) s.clients) (λ _. a) (λ _. a)
  step-All crypto (touches_client id now) s p a = a
  step-All crypto (puts_login l) s p a =
      if_case (λ (q : Store × Result StoreError (Unit {0})). All P q.0.tokens)
        (exists_where (λ r. r.state == l.state) s.logins) (λ _. a) (λ _. a)
  step-All crypto (takes_login state now) s p a = a
  step-All crypto (puts_code c g t e) s p a =
      if_case (λ (q : Store × Result StoreError (Unit {0})). All P q.0.tokens)
        (exists_where (λ r. r.code_digest == crypto.digest c) s.codes) (λ _. a) (λ _. a)
  step-All crypto (takes_code c now) s p a = take_code-All crypto c now s a
  step-All crypto (puts_token t k g c e) s p a = put_token-All crypto t k g c e s p a
  step-All crypto (takes_refresh t now) s p a = take_refresh-All crypto t now s a
  step-All crypto (revokes_family f) s p a = revoke_family-All f s a
  step-All crypto (revokes_principal q) s p a = revoke_families-All (families_of q s.tokens) s a
  step-All crypto (sweeps now) s p a = All-delete P (λ r. leb r.expires_us now) s.tokens a
  step-All crypto (evicts_clients now idle) s p a = a

  pub run-All :
      (crypto : Crypto) (ops : List Op) (s : Store)
      → All (Adds crypto) ops
      → All P s.tokens
      → All P (run crypto ops s).tokens
  unfolding run
  run-All crypto [] s ps a = a
  run-All crypto (op ∷ ops) s (p, ps) a =
      run-All crypto ops (step crypto op s) ps (step-All crypto op s p a)
