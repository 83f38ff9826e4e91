-- ===== src/Oauth/Store/Records.antt =====
-- The rows of the four OAuth tables and the outcomes of a redemption, store.rs and 0004_oauth.sql.
use mcpmem.Prelude.{ℕ, String, Bool, false, Option, none, some, List, ◌==◌, text_eq}

pub data StoreError : Type 0 where
  database : StoreError

pub record Grant : Type 0 where
  pub client_id : String
  pub principal : String
  pub scopes : List String
  pub resource : String
  pub family : String

pub data TokenKind : Type 0 where
  access refresh : TokenKind

-- The `kind` column.
abbrev pub code : TokenKind → ℕ
code access = 0
code refresh = 1

pub record CodeGrant : Type 0 where
  pub grant : Grant
  pub redirect_uri : String
  pub code_challenge : String

pub data CodeOutcome : Type 0 where
  valid : CodeGrant → CodeOutcome
  replayed unknown : CodeOutcome

pub data RefreshOutcome : Type 0 where
  valid : Grant → RefreshOutcome
  replayed unknown : RefreshOutcome

pub record ClientRecord : Type 0 where
  pub client_id : String
  pub client_name : String
  pub redirect_uris : List String
  pub source : String
  pub created_us : ℕ
  pub last_used_us : ℕ

abbrev pub reserved : String
reserved = "reserved"

pub record LoginRecord : Type 0 where
  pub state : String
  pub client_id : String
  pub redirect_uri : String
  pub client_state : Option String
  pub code_challenge : String
  pub resource : String
  pub scopes : List String
  pub upstream_verifier : String
  pub nonce : String
  pub csrf : String
  pub principal : Option String
  pub created_us : ℕ
  pub expires_us : ℕ

pub record CodeRow : Type 0 where
  pub code_digest : String
  pub code : CodeGrant
  pub spent : Bool
  pub created_us : ℕ
  pub expires_us : ℕ

pub record TokenRow : Type 0 where
  pub token_digest : String
  pub kind : ℕ
  pub grant : Grant
  pub spent : Bool
  pub revoked : Bool
  pub created_us : ℕ
  pub expires_us : ℕ

pub record Store : Type 0 where
  pub clients : List ClientRecord
  pub logins : List LoginRecord
  pub codes : List CodeRow
  pub tokens : List TokenRow

-- `principal = ?1`, which NULL does not meet.
abbrev pub is_of : String → Option String → Bool
is_of p none = false
is_of p (some q) = q == p
