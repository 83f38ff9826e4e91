-- ===== src/Oauth/Registration/Examples.antt =====
-- Tests of registration, and its theorems at concrete inputs.
use mcpmem.Prelude.{ℕ_discrete, ◌≡◌, refl, String-discrete, false, none, some, [], ◌∷◌, ok}
use mcpmem.Oauth.Store.Records.{Store}
use mcpmem.Oauth.Registration.Urls.{
  host, strip_prefix, authority, has_code, all_digits, rsplit_colon, eq_ignore_ascii_case,
}
use mcpmem.Oauth.Registration.{
  RegistrationRequest, RegistrationResponse, MetadataDocument, Web, is_acceptable_redirect_uri,
}

with_port : host "http://[::1]:8080/cb" "http://" ≡ some "[::1]"
unfolding host strip_prefix authority has_code all_digits rsplit_colon ℕ_discrete String-discrete
with_port = refl

user_information : host "https://claude.ai@evil.example/c.json" "https://" ≡ none
unfolding host strip_prefix authority has_code all_digits rsplit_colon ℕ_discrete String-discrete
user_information = refl

public_http : is_acceptable_redirect_uri "http://evil.localhost/cb" ≡ false
unfolding is_acceptable_redirect_uri host strip_prefix authority has_code all_digits rsplit_colon
    eq_ignore_ascii_case ℕ_discrete String-discrete
public_http = refl

abbrev request : RegistrationRequest
request = record { client_name = "editor"; redirect_uris = "http://LOCALHOST:33418/cb" ∷ [] }

abbrev empty : Store
empty = record { clients = []; logins = []; codes = []; tokens = [] }

abbrev response : RegistrationResponse
response = record {
  client_id = "token";
  client_id_issued_at = 2;
  client_name = "editor";
  redirect_uris = "http://LOCALHOST:33418/cb" ∷ [];
}

abbrev document : MetadataDocument
document = record {
  client_id = "https://Claude.ai/c.json";
  client_name = "Claude";
  redirect_uris = "https://claude.ai/cb" ∷ [];
}

abbrev web : Web
web = record { get = λ url. ok "{}"; parse = λ body. some document }
