-- ===== src/Oauth/Store/Keys.antt =====
-- The four tables keep their primary keys.
use mcpmem.Prelude.{
  ℕ, String, refl, List, [], ◌∷◌, if_case, Result, Option-cases, inl, inr, ◌==◌, text_eq,
  exists_where, first_where, arith, leb, Keyed, Keyed-update, Keyed-delete, Keyed-insert,
  Bool-cases,
}
use mcpmem.Oauth.Store.Records.{
  Store, TokenRow, CodeRow, ClientRecord, LoginRecord, StoreError, CodeOutcome, RefreshOutcome,
  refresh, is_of,
}
use mcpmem.Oauth.Store.{
  Crypto, put_client, touch_client, put_login, take_login, put_code, take_code, put_token,
  take_refresh, revoke_family, revoke_families, revoke_principal, sweep, evict_clients, live_code,
  live_token, live_login, families_of, evictable,
}
use mcpmem.Oauth.Store.Trace.{
  Op, puts_client, touches_client, puts_login, takes_login, puts_code, takes_code, puts_token,
  takes_refresh, revokes_family, revokes_principal, sweeps, evicts_clients, step,
}
use mcpmem.Oauth.Store.Rows.{token_row, revoked_row, spent_row}
use mcpmem.Oauth.Store.CodeRows.{code_row, spent_code}

pub record HasKeys (s : Store) : Type 0 where
  pub clients : Keyed (λ (r : ClientRecord). r.client_id) s.clients
  pub logins : Keyed (λ (r : LoginRecord). r.state) s.logins
  pub codes : Keyed (λ (r : CodeRow). r.code_digest) s.codes
  pub tokens : Keyed (λ (r : TokenRow). r.token_digest) s.tokens

revoke_family-HasKeys : (f : String) (s : Store) → HasKeys s → HasKeys (revoke_family f s)
unfolding revoke_family
revoke_family-HasKeys f s k = record {
  clients = k.clients;
  logins = k.logins;
  codes = k.codes;
  tokens =
      Keyed-update (λ (r : TokenRow). r.token_digest) (λ r. r.grant.family == f) revoked_row
        s.tokens (λ r _. refl) k.tokens;
}

revoke_families-HasKeys :
    (fs : List String) (s : Store) → HasKeys s → HasKeys (revoke_families fs s)
unfolding revoke_families
revoke_families-HasKeys [] s k = k
revoke_families-HasKeys (f ∷ fs) s k =
    revoke_families-HasKeys fs (revoke_family f s) (revoke_family-HasKeys f s k)

put_client-HasKeys : (c : ClientRecord) (s : Store) → HasKeys s → HasKeys (put_client c s)
unfolding put_client
put_client-HasKeys c s k =
    elim (Bool-cases (exists_where (λ r. r.client_id == c.client_id) s.clients)) [
      | inl e ↦ rw e (record {
        clients =
            Keyed-update (λ (r : ClientRecord). r.client_id) (λ r. r.client_id == c.client_id)
              (λ r. record c { created_us = r.created_us }) s.clients (λ r t. ground arith)
              k.clients;
        logins = k.logins;
        codes = k.codes;
        tokens = k.tokens;
      })
      | inr e ↦ rw e (record {
        clients = Keyed-insert (λ (r : ClientRecord). r.client_id) c s.clients e k.clients;
        logins = k.logins;
        codes = k.codes;
        tokens = k.tokens;
      })
    ]

take_code-HasKeys :
    (crypto : Crypto) (c : String) (now : ℕ) (s : Store)
    → HasKeys s
    → HasKeys (take_code crypto c now s).0
unfolding take_code
take_code-HasKeys crypto c now s k =
    elim (Option-cases (first_where (live_code crypto c now) s.codes)) [
      | inl e ↦ rw (e, take_code) k
      | inr (r, e) ↦
          rw (e, take_code)
            (if_case (λ (q : Store × CodeOutcome). HasKeys q.0) r.spent
              (λ _. revoke_family-HasKeys r.code.grant.family s k)
              (λ _. record {
                clients = k.clients;
                logins = k.logins;
                codes =
                    Keyed-update (λ (r : CodeRow). r.code_digest)
                      (λ x. x.code_digest == crypto.digest c) spent_code s.codes (λ x _. refl)
                      k.codes;
                tokens = k.tokens;
              }))
    ]

take_refresh-HasKeys :
    (crypto : Crypto) (t : String) (now : ℕ) (s : Store)
    → HasKeys s
    → HasKeys (take_refresh crypto t now s).0
unfolding take_refresh
take_refresh-HasKeys crypto t now s k =
    elim (Option-cases (first_where (live_token crypto refresh t now) s.tokens)) [
      | inl e ↦ rw (e, take_refresh) k
      | inr (r, e) ↦
          rw (e, take_refresh)
            (if_case (λ (q : Store × RefreshOutcome). HasKeys q.0) r.spent
              (λ _. revoke_family-HasKeys r.grant.family s k)
              (λ _. record {
                clients = k.clients;
                logins = k.logins;
                codes = k.codes;
                tokens =
                    Keyed-update (λ (r : TokenRow). r.token_digest)
                      (λ x. x.token_digest == crypto.digest t) spent_row s.tokens (λ x _. refl)
                      k.tokens;
              }))
    ]

-- Every operation keeps the primary keys of all four tables distinct.
pub step-HasKeys : (crypto : Crypto) (s : Store) (op : Op) → HasKeys s → HasKeys (step crypto op s)
unfolding step touch_client put_login take_login put_code put_token revoke_principal sweep
    evict_clients
step-HasKeys crypto s (puts_client c) k = put_client-HasKeys c s k
step-HasKeys crypto s (touches_client id now) k = record {
  clients =
      Keyed-update (λ (r : ClientRecord). r.client_id) (λ r. r.client_id == id)
        (λ r. record r { last_used_us = now }) s.clients (λ r _. refl) k.clients;
  logins = k.logins;
  codes = k.codes;
  tokens = k.tokens;
}
step-HasKeys crypto s (puts_login l) k =
    if_case (λ (q : Store × Result StoreError (Unit {0})). HasKeys q.0)
      (exists_where (λ r. r.state == l.state) s.logins) (λ _. k)
      (λ miss. record {
        clients = k.clients;
        logins = Keyed-insert (λ (r : LoginRecord). r.state) l s.logins miss k.logins;
        codes = k.codes;
        tokens = k.tokens;
      })
step-HasKeys crypto s (takes_login state now) k = record {
  clients = k.clients;
  logins = Keyed-delete (λ (r : LoginRecord). r.state) (live_login state now) s.logins k.logins;
  codes = k.codes;
  tokens = k.tokens;
}
step-HasKeys crypto s (puts_code c g t e) k =
    if_case (λ (q : Store × Result StoreError (Unit {0})). HasKeys q.0)
      (exists_where (λ r. r.code_digest == crypto.digest c) s.codes) (λ _. k)
      (λ miss. record {
        clients = k.clients;
        logins = k.logins;
        codes =
            Keyed-insert (λ (r : CodeRow). r.code_digest) (code_row crypto c g t e) s.codes miss
              k.codes;
        tokens = k.tokens;
      })
step-HasKeys crypto s (takes_code c now) k = take_code-HasKeys crypto c now s k
step-HasKeys crypto s (puts_token t kind g c e) k =
    if_case (λ (q : Store × Result StoreError (Unit {0})). HasKeys q.0)
      (exists_where (λ r. r.token_digest == crypto.digest t) s.tokens) (λ _. k)
      (λ miss. record {
        clients = k.clients;
        logins = k.logins;
        codes = k.codes;
        tokens =
            Keyed-insert (λ (r : TokenRow). r.token_digest) (token_row crypto t kind g c e) s.tokens
              miss k.tokens;
      })
step-HasKeys crypto s (takes_refresh t now) k = take_refresh-HasKeys crypto t now s k
step-HasKeys crypto s (revokes_family f) k = revoke_family-HasKeys f s k
step-HasKeys crypto s (revokes_principal p) k =
    let revoked = revoke_families-HasKeys (families_of p s.tokens) s k in
    record {
      clients = revoked.clients;
      logins =
          Keyed-delete (λ (r : LoginRecord). r.state) (λ r. is_of p r.principal) _ revoked.logins;
      codes =
          Keyed-delete (λ (r : CodeRow). r.code_digest) (λ r. r.code.grant.principal == p) _
            revoked.codes;
      tokens = revoked.tokens;
    }
step-HasKeys crypto s (sweeps now) k = record {
  clients = k.clients;
  logins =
      Keyed-delete (λ (r : LoginRecord). r.state) (λ r. leb r.expires_us now) s.logins k.logins;
  codes = Keyed-delete (λ (r : CodeRow). r.code_digest) (λ r. leb r.expires_us now) s.codes k.codes;
  tokens =
      Keyed-delete (λ (r : TokenRow). r.token_digest) (λ r. leb r.expires_us now) s.tokens k.tokens;
}
step-HasKeys crypto s (evicts_clients now idle) k = record {
  clients =
      Keyed-delete (λ (r : ClientRecord). r.client_id) (evictable now idle s) s.clients k.clients;
  logins = k.logins;
  codes = k.codes;
  tokens = k.tokens;
}
