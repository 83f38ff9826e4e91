-- ===== src/Oauth/Store/Maintenance.antt =====
-- The periodic clean-up does not change what a caller sees.
use mcpmem.Prelude.{
  ℕ, ◌≤◌, ◌+◌, ◌<◌, String, true, ◌≡◌, ◌⊎◌, some, ◌==◌, text_eq, exists_where, first_where-delete,
  first_where-spared, ◌&&◌, arith, leb, ltb,
}
use mcpmem.Oauth.Store.Records.{Store, TokenRow, ClientRecord, access, refresh, reserved}
use mcpmem.Oauth.Store.{
  Crypto, find_access, take_code, take_refresh, take_login, family_of, get_client, sweep,
  evict_clients, evictable, live_code, live_token, live_login,
}

-- After a sweep every credential and every login gets the answer that it would have got without, at
-- any time that is not before the sweep.
pub sweep-answers :
    (crypto : Crypto) (value : String) (swept now : ℕ) (s : Store)
    → swept ≤ now
    → let s' = (sweep swept s).0 in
      (find_access crypto value now s' ≡ find_access crypto value now s)
      × ((take_refresh crypto value now s').1 ≡ (take_refresh crypto value now s).1)
      × ((take_code crypto value now s').1 ≡ (take_code crypto value now s).1)
      × ((take_login value now s').1 ≡ (take_login value now s).1)
      × (family_of crypto value now s' ≡ family_of crypto value now s)
unfolding sweep find_access take_refresh take_code take_login family_of
sweep-answers crypto value swept now s le =
    let accesses =
      first_where-delete (live_token crypto access value now) (λ r. leb r.expires_us swept) s.tokens
        (λ r h. ground arith) in
    let refreshes =
      first_where-delete (live_token crypto refresh value now) (λ r. leb r.expires_us swept)
        s.tokens (λ r h. ground arith) in
    let codes =
      first_where-delete (live_code crypto value now) (λ r. leb r.expires_us swept) s.codes
        (λ r h. ground arith) in
    let logins =
      first_where-delete (live_login value now) (λ r. leb r.expires_us swept) s.logins
        (λ r h. ground arith) in
    let families =
      first_where-delete (λ r. r.token_digest == crypto.digest value && ltb now r.expires_us)
        (λ r. leb r.expires_us swept) s.tokens (λ r h. ground arith) in
    (
      ground (arith, accesses),
      ground (arith, refreshes),
      ground (arith, codes),
      logins,
      ground (arith, families),
    )

-- A client that is reserved, that holds a token row, or that was used less than the allowed idle time
-- ago is found as before after an eviction.
pub evict_clients-keeps :
    (id : String) (now idle : ℕ) (s : Store) (c : ClientRecord)
    → get_client id s ≡ some c
    → (c.source ≡ reserved)
      ⊎ (exists_where (λ (t : TokenRow). t.grant.client_id == c.client_id) s.tokens ≡ true)
      ⊎ (now < c.last_used_us + idle)
    → get_client id (evict_clients now idle s).0 ≡ some c
unfolding get_client evict_clients
evict_clients-keeps id now idle s c h safe =
    first_where-spared (λ r. r.client_id == id) (evictable now idle s) s.clients c h (ground arith)
