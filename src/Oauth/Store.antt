-- ===== src/Oauth/Store.antt =====
-- crates/mcpmem-oauth/src/store.rs: clients, logins, authorization codes and tokens.
-- The rows hold what the columns decode to. An immediate transaction is one step on the store, and
-- `err` is the refusal of a duplicate primary key, which leaves the tables as they were.
pub mod Records
pub mod Rows
pub mod Lasting
pub mod CodeRows
pub mod SingleUse
pub mod Revocation
pub mod Principal
pub mod Keys
pub mod Maintenance
mod Examples
pub mod Trace
use mcpmem.Prelude.{
  ℕ, ◌+◌, String, Bool, true, false, ◌&&◌, ◌||◌, not, Option, none, some, List, [], ◌∷◌, map,
  length, leb, ltb, ◌==◌, text_eq, nat_eq, if◌then◌else◌, Result, ok, err, select, first_where,
  exists_where, count_where, update_where, delete_where,
}
use Records.*

-- What SHA-256 and base64 compute; neither is code of the repository.
pub record Crypto : Type 0 where
  pub digest : String → String
  pub s256_challenge : String → String

pub put_client : ClientRecord → Store → Store
put_client c s =
    if exists_where (λ r. r.client_id == c.client_id) s.clients
    then record s {
      clients =
          update_where (λ r. r.client_id == c.client_id)
            (λ r. record c { created_us = r.created_us }) s.clients;
    }
    else record s { clients = c ∷ s.clients }

pub get_client : String → Store → Option ClientRecord
get_client client_id s = first_where (λ r. r.client_id == client_id) s.clients

pub touch_client : String → ℕ → Store → Store
touch_client client_id now_us s = record s {
  clients =
      update_where (λ r. r.client_id == client_id) (λ r. record r { last_used_us = now_us })
        s.clients;
}

pub put_login : LoginRecord → Store → Store × Result StoreError (Unit {0})
put_login l s =
    if exists_where (λ r. r.state == l.state) s.logins
    then (s, err database)
    else (record s { logins = l ∷ s.logins }, ok tt)

abbrev pub live_login : String → ℕ → LoginRecord → Bool
live_login state now_us r = r.state == state && ltb now_us r.expires_us

unfoldable pub take_login : String → ℕ → Store → Store × Option LoginRecord
take_login state now_us s = (
  record s { logins = delete_where (live_login state now_us) s.logins },
  first_where (live_login state now_us) s.logins,
)

module _ (crypto : Crypto) where
  open crypto use {digest}

  unfoldable pub put_code :
      String → CodeGrant → ℕ → ℕ → Store → Store × Result StoreError (Unit {0})
  put_code code g created_us expires_us s =
      if exists_where (λ r. r.code_digest == digest code) s.codes
      then (s, err database)
      else (record s { codes = row ∷ s.codes }, ok tt)
    where
      row : CodeRow
      row = record {
        code_digest = digest code;
        code = g;
        spent = false;
        created_us = created_us;
        expires_us = expires_us;
      }

  unfoldable pub put_token :
      String → TokenKind → Grant → ℕ → ℕ → Store → Store × Result StoreError (Unit {0})
  put_token token kind g created_us expires_us s =
      if exists_where (λ r. r.token_digest == digest token) s.tokens
      then (s, err database)
      else (record s { tokens = row ∷ s.tokens }, ok tt)
    where
      row : TokenRow
      row = record {
        token_digest = digest token;
        kind = code kind;
        grant = g;
        spent = false;
        revoked = false;
        created_us = created_us;
        expires_us = expires_us;
      }

  abbrev pub live_code : String → ℕ → CodeRow → Bool
  live_code code now_us r = r.code_digest == digest code && ltb now_us r.expires_us

  abbrev pub live_token : TokenKind → String → ℕ → TokenRow → Bool
  live_token kind token now_us r =
      r.token_digest == digest token
      && r.kind == code kind
      && not r.revoked
      && ltb now_us r.expires_us

  unfoldable pub find_access : String → ℕ → Store → Option Grant
  find_access token now_us s = elim (first_where (live_token access token now_us) s.tokens) [
    | none ↦ none
    | some r ↦ some r.grant
  ]

-- UPDATE oauth_token SET revoked = 1 WHERE family = ?1
unfoldable pub revoke_family : String → Store → Store
revoke_family family s = record s {
  tokens = update_where (λ r. r.grant.family == family) (λ r. record r { revoked = true }) s.tokens;
}

module _ (crypto : Crypto) where
  open crypto use {digest}

  unfoldable pub take_code : String → ℕ → Store → Store × CodeOutcome
  unfolding revoke_family
  take_code code now_us s = elim (first_where (live_code crypto code now_us) s.codes) [
    | none ↦ (s, CodeOutcome.unknown)
    | some row ↦
        if row.spent then (revoke_family row.code.grant.family s, CodeOutcome.replayed) else (
          record s {
            codes =
                update_where (λ r. r.code_digest == digest code) (λ r. record r { spent = true })
                  s.codes;
          },
          CodeOutcome.valid row.code,
        )
  ]

  unfoldable pub take_refresh : String → ℕ → Store → Store × RefreshOutcome
  unfolding revoke_family
  take_refresh token now_us s =
      elim (first_where (live_token crypto refresh token now_us) s.tokens) [
        | none ↦ (s, RefreshOutcome.unknown)
        | some row ↦
            if row.spent then (revoke_family row.grant.family s, RefreshOutcome.replayed) else (
              record s {
                tokens =
                    update_where (λ r. r.token_digest == digest token)
                      (λ r. record r { spent = true }) s.tokens;
              },
              RefreshOutcome.valid row.grant,
            )
      ]

  unfoldable pub family_of : String → ℕ → Store → Option String
  family_of token now_us s =
      elim (first_where (λ r. r.token_digest == digest token && ltb now_us r.expires_us) s.tokens) [
        | none ↦ none
        | some r ↦ some r.grant.family
      ]

-- SELECT DISTINCT family FROM oauth_token WHERE principal = ?1 AND revoked = 0
pub distinct : List String → List String
distinct [] = []
distinct (f ∷ fs) =
    let rest = distinct fs in if exists_where (λ g. g == f) fs then rest else f ∷ rest

pub families_of : String → List TokenRow → List String
families_of principal tokens = distinct (
    map (λ r. r.grant.family)
      (select (λ r. r.grant.principal == principal && not r.revoked) tokens))

pub revoke_families : List String → Store → Store
revoke_families [] s = s
revoke_families (f ∷ fs) s = revoke_families fs (revoke_family f s)

pub revoke_principal : String → Store → Store × ℕ
unfolding families_of revoke_families
revoke_principal principal s =
    let families = families_of principal s.tokens in
    let revoked = revoke_families families s in
    (
      record revoked {
        codes = delete_where (λ r. r.code.grant.principal == principal) revoked.codes;
        logins = delete_where (λ r. is_of principal r.principal) revoked.logins;
      },
      length families,
    )

pub sweep : ℕ → Store → Store × ℕ
sweep now_us s = (
  record s {
    logins = delete_where (λ r. leb r.expires_us now_us) s.logins;
    codes = delete_where (λ r. leb r.expires_us now_us) s.codes;
    tokens = delete_where (λ r. leb r.expires_us now_us) s.tokens;
  },
  count_where (λ (r : LoginRecord). leb r.expires_us now_us) s.logins
      + count_where (λ (r : CodeRow). leb r.expires_us now_us) s.codes
      + count_where (λ (r : TokenRow). leb r.expires_us now_us) s.tokens,
)

-- `last_used_us <= now_us - max_idle_us`, over signed numbers.
abbrev pub evictable : ℕ → ℕ → Store → ClientRecord → Bool
evictable now_us max_idle_us s c =
    leb (c.last_used_us + max_idle_us) now_us
    && not (exists_where (λ (t : TokenRow). t.grant.client_id == c.client_id) s.tokens)
    && not (c.source == reserved)

pub evict_clients : ℕ → ℕ → Store → Store × ℕ
evict_clients now_us max_idle_us s = (
  record s { clients = delete_where (evictable now_us max_idle_us s) s.clients },
  count_where (evictable now_us max_idle_us s) s.clients,
)
