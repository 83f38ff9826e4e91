-- ===== src/Oauth/Store/CodeRows.antt =====
-- How an operation changes the code rows, whose one rewriting marks a code as spent.
use mcpmem.Prelude.{
  ℕ, String, true, false, ◌≡◌, refl, List, [], ◌∷◌, All, if_case, Option-cases, inl, inr,
  All-update, All-delete, ◌==◌, text_eq, exists_where, first_where, Result, leb, ◌∙◌,
}
use mcpmem.Oauth.Store.Records.{
  Store, Grant, TokenKind, CodeRow, CodeGrant, refresh, StoreError, CodeOutcome, RefreshOutcome,
}
use mcpmem.Oauth.Store.{
  Crypto, put_client, touch_client, put_login, take_login, put_code, take_code, put_token,
  take_refresh, revoke_family, revoke_families, revoke_principal, sweep, evict_clients, live_code,
  live_token, families_of,
}
use mcpmem.Oauth.Store.Trace.{
  Op, puts_client, touches_client, puts_login, takes_login, puts_code, takes_code, puts_token,
  takes_refresh, revokes_family, revokes_principal, sweeps, evicts_clients, step, run,
}

-- The row that `put_code` inserts.
abbrev pub code_row : Crypto → String → CodeGrant → ℕ → ℕ → CodeRow
code_row crypto c g created_us expires_us = record {
  code_digest = crypto.digest c;
  code = g;
  spent = false;
  created_us = created_us;
  expires_us = expires_us;
}

abbrev pub spent_code : CodeRow → CodeRow
spent_code r = record r { spent = true }

pub revoke_family-codes : (f : String) (s : Store) → (revoke_family f s).codes ≡ s.codes
unfolding revoke_family
revoke_family-codes f s = refl

pub revoke_families-codes : (fs : List String) (s : Store) → (revoke_families fs s).codes ≡ s.codes
unfolding revoke_families
revoke_families-codes [] s = refl
revoke_families-codes (f ∷ fs) s =
    revoke_families-codes fs (revoke_family f s) ∙ revoke_family-codes f s

pub put_token-codes :
    (crypto : Crypto) (t : String) (k : TokenKind) (g : Grant) (c e : ℕ) (s : Store)
    → (put_token crypto t k g c e s).0.codes ≡ s.codes
unfolding put_token
put_token-codes crypto t k g c e s =
    if_case (λ (q : Store × Result StoreError (Unit {0})). q.0.codes ≡ s.codes)
      (exists_where (λ r. r.token_digest == crypto.digest t) s.tokens) (λ _. refl) (λ _. refl)

module _ {ℓ} (P : CodeRow → Type ℓ) (stable : (r : CodeRow) → P r → P (spent_code r)) where
  pub take_code-All_codes :
      (crypto : Crypto) (c : String) (now : ℕ) (s : Store)
      → All P s.codes
      → All P (take_code crypto c now s).0.codes
  unfolding take_code
  take_code-All_codes crypto c now s a =
      elim (Option-cases (first_where (live_code crypto c now) s.codes)) [
        | inl e ↦ rw (e, take_code) a
        | inr (r, e) ↦
            rw (e, take_code)
              (if_case (λ (q : Store × CodeOutcome). All P q.0.codes) r.spent
                (λ _. rw (revoke_family-codes r.code.grant.family s) a)
                (λ _.
                  All-update P P (λ x. x.code_digest == crypto.digest c) spent_code s.codes
                    (λ x p _. stable x p) (λ x p _. p) a))
      ]

  take_refresh-All_codes :
      (crypto : Crypto) (t : String) (now : ℕ) (s : Store)
      → All P s.codes
      → All P (take_refresh crypto t now s).0.codes
  unfolding take_refresh
  take_refresh-All_codes crypto t now s a =
      elim (Option-cases (first_where (live_token crypto refresh t now) s.tokens)) [
        | inl e ↦ rw (e, take_refresh) a
        | inr (r, e) ↦
            rw (e, take_refresh)
              (if_case (λ (q : Store × RefreshOutcome). All P q.0.codes) r.spent
                (λ _. rw (revoke_family-codes r.grant.family s) a) (λ _. a))
      ]

  abbrev pub AddsCode : Crypto → Op → Type ℓ
  AddsCode crypto (puts_code c g t e) = P (code_row crypto c g t e)
  AddsCode crypto (puts_client _) = Unit
  AddsCode crypto _ = Unit

  pub step-All_codes :
      (crypto : Crypto) (op : Op) (s : Store)
      → AddsCode crypto op
      → All P s.codes
      → All P (step crypto op s).codes
  unfolding step put_client touch_client put_login take_login put_code revoke_principal sweep
      evict_clients
  step-All_codes crypto (puts_client c) s p a =
      if_case (λ (q : Store). All P q.codes)
        (exists_where (λ r. r.client_id == c.client_id) s.clients) (λ _. a) (λ _. a)
  step-All_codes crypto (touches_client id now) s p a = a
  step-All_codes crypto (puts_login l) s p a =
      if_case (λ (q : Store × Result StoreError (Unit {0})). All P q.0.codes)
        (exists_where (λ r. r.state == l.state) s.logins) (λ _. a) (λ _. a)
  step-All_codes crypto (takes_login state now) s p a = a
  step-All_codes crypto (puts_code c g t e) s p a =
      if_case (λ (q : Store × Result StoreError (Unit {0})). All P q.0.codes)
        (exists_where (λ r. r.code_digest == crypto.digest c) s.codes) (λ _. a) (λ _. (p, a))
  step-All_codes crypto (takes_code c now) s p a = take_code-All_codes crypto c now s a
  step-All_codes crypto (puts_token t k g c e) s p a = rw (put_token-codes crypto t k g c e s) a
  step-All_codes crypto (takes_refresh t now) s p a = take_refresh-All_codes crypto t now s a
  step-All_codes crypto (revokes_family f) s p a = rw (revoke_family-codes f s) a
  step-All_codes crypto (revokes_principal q) s p a =
      All-delete P (λ r. r.code.grant.principal == q)
        (revoke_families (families_of q s.tokens) s).codes
        (rw (revoke_families-codes (families_of q s.tokens) s) a)
  step-All_codes crypto (sweeps now) s p a = All-delete P (λ r. leb r.expires_us now) s.codes a
  step-All_codes crypto (evicts_clients now idle) s p a = a

  pub run-All_codes :
      (crypto : Crypto) (ops : List Op) (s : Store)
      → All (AddsCode crypto) ops
      → All P s.codes
      → All P (run crypto ops s).codes
  unfolding run
  run-All_codes crypto [] s ps a = a
  run-All_codes crypto (op ∷ ops) s (p, ps) a =
      run-All_codes crypto ops (step crypto op s) ps (step-All_codes crypto op s p a)
