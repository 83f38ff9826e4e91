-- ===== src/Oauth/Token/Examples.antt =====
-- The theorems about the token endpoint at concrete inputs. The digest is the identity here.
use mcpmem.Prelude.{
  ℕ, ◌≡◌, refl, ◌≢◌, String, false, some, [], ◌∷◌, arith, text_ne, String-discrete, ℕ_discrete, ok,
  inl,
}
use mcpmem.Oauth.Store.Records.{Store, Grant, TokenRow, CodeGrant, CodeOutcome}
use mcpmem.Oauth.Store.{
  Crypto, find_access, take_refresh, take_code, put_token, revoke_family, family_of,
}
use mcpmem.Oauth.Store.Trace.{sweeps, run, step}
use mcpmem.Oauth.Token.{
  CodeExchange, TokenResponse, join, issue, validate, revoke, grant_authorization_code,
  grant_refresh,
}
use mcpmem.Oauth.Token.Pairs.{issue-validate, revoke_ends_family}
use mcpmem.Oauth.Token.Exchange.{
  grant_authorization_code_sound, grant_authorization_code_once, grant_refresh_other_client,
}

abbrev plain : Crypto
plain = record { digest = λ t. t; s256_challenge = λ t. t }

abbrev grant_of : String → String → Grant
grant_of principal family = record {
  client_id = "cli";
  principal = principal;
  scopes = "code" ∷ [];
  resource = "https://kg";
  family = family;
}

abbrev row : String → ℕ → Grant → TokenRow
row digest kind g = record {
  token_digest = digest;
  kind = kind;
  grant = g;
  spent = false;
  revoked = false;
  created_us = 0;
  expires_us = 100;
}

abbrev code_grant : CodeGrant
code_grant = record {
  grant = grant_of "ann" "f3";
  redirect_uri = "https://app";
  code_challenge = "v";
}

-- Ann has a pair and an unspent code, Bob a bearer token.
abbrev stocked : Store
stocked = record {
  clients = [];
  logins = [];
  codes =
      record {
        code_digest = "c";
        code = code_grant;
        spent = false;
        created_us = 0;
        expires_us = 100;
      }
      ∷ [];
  tokens =
      row "ra" 1 (grant_of "ann" "f1")
      ∷ row "aa" 0 (grant_of "ann" "f1")
      ∷ row "ab" 0 (grant_of "bob" "f2")
      ∷ [];
}

abbrev exchanges : CodeExchange
exchanges = record {
  code = "c";
  code_verifier = "v";
  client_id = "cli";
  redirect_uri = "https://app";
}

abbrev answer : String → String → TokenResponse
answer a r = record {
  access_token = a;
  token_type = "Bearer";
  expires_in = 3600;
  refresh_token = r;
  scope = "code";
}

issue-validate_example :
    validate plain (issue plain "x" "y" (grant_of "ann" "f1") 10 stocked).0 "x" "https://kg" 20
    ≡ some (grant_of "ann" "f1")
unfolding issue put_token join String-discrete
issue-validate_example =
    (issue-validate plain "x" "y" (grant_of "ann" "f1") 10 stocked (answer "x" "y") 20 5000 refl
      (omega arith) (omega arith)).0

revoke_ends_family_example : ◌≢◌ {A = String} "f2" "f1"
unfolding validate find_access revoke family_of run step revoke_family String-discrete ℕ_discrete
revoke_ends_family_example =
    revoke_ends_family plain "aa" "https://kg" "ab" 10 20 stocked (grant_of "ann" "f1")
      (grant_of "bob" "f2") []
      (
        (text_ne "aa" "ra" refl, (text_ne "ab" "ra" refl, tt)),
        ((text_ne "ab" "aa" refl, tt), (tt, tt)),
      )
      refl tt (inl refl)

grant_authorization_code_sound_example :
    (c : CodeGrant) × ((take_code plain "c" 10 stocked).1 ≡ CodeOutcome.valid c)
    × ("v" ≡ c.code_challenge)
    × ("cli" ≡ c.grant.client_id)
    × ("https://app" ≡ c.redirect_uri)
    × (validate plain
          (grant_authorization_code plain "x" "y" exchanges 10 stocked).0
          "x"
          c.grant.resource
          20
        ≡ some c.grant)
unfolding grant_authorization_code take_code issue put_token join String-discrete
grant_authorization_code_sound_example =
    grant_authorization_code_sound plain "x" "y" exchanges 10 20 stocked (answer "x" "y") refl
      (omega arith)

grant_authorization_code_once_example :
    (grant_authorization_code plain "u" "w" exchanges 20
      (run plain (sweeps 5 ∷ []) (grant_authorization_code plain "x" "y" exchanges 10 stocked).0)).1
    ≢ ok (answer "u" "w")
unfolding take_code String-discrete
grant_authorization_code_once_example =
    grant_authorization_code_once plain "x" "y" "u" "w" exchanges exchanges 10 20 stocked code_grant
      (sweeps 5 ∷ []) (answer "u" "w") refl refl (tt, tt)

grant_refresh_other_client_example :
    find_access plain "aa" 20
      (grant_refresh plain "x" "y"
        (record { refresh_token = "ra"; client_id = "other" })
        10
        stocked).0
    ≢ some (grant_of "ann" "f1")
unfolding take_refresh run String-discrete ℕ_discrete
grant_refresh_other_client_example =
    (grant_refresh_other_client plain "x" "y" "aa"
      (record { refresh_token = "ra"; client_id = "other" }) 10 20 stocked (grant_of "ann" "f1")
      (grant_of "ann" "f1") [] (answer "x" "y") refl (text_ne "other" "cli" refl) tt refl).1
