-- ===== src/Oauth/Store/Examples.antt =====
-- Tests, and the theorems about the store at concrete inputs. The digest is the identity here.
use mcpmem.Prelude.{
  ℕ, ◌≡◌, refl, ◌≢◌, String, false, some, [], ◌∷◌, arith, String-discrete, ℕ_discrete, Option, inl,
  inr, text_eq,
}
use mcpmem.Oauth.Store.Records.{
  CodeGrant, CodeOutcome, LoginRecord, Store, Grant, TokenRow, ClientRecord, RefreshOutcome,
}
use mcpmem.Oauth.Store.{
  take_code, take_login, Crypto, find_access, take_refresh, revoke_principal, sweep, evict_clients,
  get_client,
}
use mcpmem.Oauth.Store.Trace.{sweeps, run}
use mcpmem.Oauth.Store.SingleUse.{take_refresh_once}
use mcpmem.Oauth.Store.Principal.{revoke_principal_ends}
use mcpmem.Oauth.Store.Maintenance.{sweep-answers, evict_clients-keeps}

abbrev plain : Crypto
plain = record { digest = λ t. t; s256_challenge = λ t. t }

abbrev grant_of : String → String → Grant
grant_of principal family = record {
  client_id = "cli";
  principal = principal;
  scopes = "graph-read" ∷ [];
  resource = "https://kg";
  family = family;
}

abbrev row : String → ℕ → Grant → TokenRow
row digest kind g = record {
  token_digest = digest;
  kind = kind;
  grant = g;
  spent = false;
  revoked = false;
  created_us = 0;
  expires_us = 100;
}

abbrev client : ClientRecord
client = record {
  client_id = "cli";
  client_name = "cli";
  redirect_uris = [];
  source = "dcr";
  created_us = 0;
  last_used_us = 0;
}

abbrev code_of_ann : CodeGrant
code_of_ann = record {
  grant = grant_of "ann" "f1";
  redirect_uri = "https://app";
  code_challenge = "v";
}

abbrev login_of_ann : LoginRecord
login_of_ann = record {
  state = "s";
  client_id = "cli";
  redirect_uri = "https://app";
  client_state = Option.none;
  code_challenge = "v";
  resource = "https://kg";
  scopes = [];
  upstream_verifier = "u";
  nonce = "n";
  csrf = "x";
  principal = some "ann";
  created_us = 0;
  expires_us = 50;
}

-- Ann holds a pair of tokens, Bob a bearer token.
abbrev stocked : Store
stocked = record {
  clients = client ∷ [];
  logins = [];
  codes = [];
  tokens =
      row "ra" 1 (grant_of "ann" "f1")
      ∷ row "aa" 0 (grant_of "ann" "f1")
      ∷ row "ab" 0 (grant_of "bob" "f2")
      ∷ [];
}

take_refresh_once_example :
    (take_refresh plain "ra" 20
      (run plain (sweeps 5 ∷ []) (take_refresh plain "ra" 10 stocked).0)).1
    ≢ RefreshOutcome.valid (grant_of "ann" "f1")
unfolding take_refresh String-discrete ℕ_discrete
take_refresh_once_example =
    take_refresh_once plain "ra" 10 20 stocked (grant_of "ann" "f1") (grant_of "ann" "f1")
      (sweeps 5 ∷ []) refl (tt, tt)

revoke_principal_ends_example :
    (find_access plain "ra" 10 (revoke_principal "ann" stocked).0 ≢ some (grant_of "ann" "f1"))
    × ((take_refresh plain "ra" 10 (revoke_principal "ann" stocked).0).1
        ≢ RefreshOutcome.valid (grant_of "ann" "f1"))
    × ((take_code plain "ra" 10 (revoke_principal "ann" stocked).0).1
        ≢ CodeOutcome.valid code_of_ann)
    × ((take_login "ra" 10 (revoke_principal "ann" stocked).0).1 ≢ some login_of_ann)
revoke_principal_ends_example =
    revoke_principal_ends plain "ann" "ra" 10 stocked (grant_of "ann" "f1") code_of_ann login_of_ann
      refl refl refl

sweep-answers_example :
    find_access plain "ab" 60 (sweep 50 stocked).0 ≡ find_access plain "ab" 60 stocked
sweep-answers_example = (sweep-answers plain "ab" 50 60 stocked (omega arith)).0

evict_clients-keeps_example : get_client "cli" (evict_clients 1000 10 stocked).0 ≡ some client
unfolding get_client String-discrete
evict_clients-keeps_example = evict_clients-keeps "cli" 1000 10 stocked client refl (inr (inl refl))
