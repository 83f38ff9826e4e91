-- ===== src/Oauth/Consent/Examples.antt =====
-- Tests of the consent decision, and its theorems at concrete inputs.
use mcpmem.Prelude.{
  ℕ_discrete, ◌≡◌, refl, String, String-discrete, false, none, some, List, [], ◌∷◌, inl,
}
use mcpmem.Oauth.Store.Records.{Store, LoginRecord}
use mcpmem.Oauth.Store.{Crypto}
use mcpmem.Oauth.Registration.Urls.{has_code}
use mcpmem.Oauth.Consent.{offered}
use mcpmem.Oauth.Consent.Escape.{escape_html, escape_html_plain}

intersection :
    offered
      ("graph-write" ∷ "code" ∷ "graph-read" ∷ "graph-write" ∷ [])
      ("graph-read" ∷ "graph-write" ∷ [])
    ≡ "graph-write" ∷ "graph-read" ∷ []
unfolding offered String-discrete ℕ_discrete
intersection = refl

abbrev crypto : Crypto
crypto = record { digest = λ text. text; s256_challenge = λ text. text }

abbrev login : LoginRecord
login = record {
  state = "st";
  client_id = "c";
  redirect_uri = "https://c/cb";
  client_state = none;
  code_challenge = "ch";
  resource = "r";
  scopes = "graph-read" ∷ "code" ∷ [];
  upstream_verifier = "v";
  nonce = "n";
  csrf = "x";
  principal = some "human:ann";
  created_us = 0;
  expires_us = 100;
}

abbrev start : Store
start = record { clients = []; logins = login ∷ []; codes = []; tokens = [] }

abbrev scopes : List String
scopes = "code" ∷ []

escape_html_plain_example : has_code 60 (escape_html "<script>&") ≡ false
escape_html_plain_example = escape_html_plain 60 "<script>&" (inl refl)
