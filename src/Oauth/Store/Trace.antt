-- ===== src/Oauth/Store/Trace.antt =====
-- Sequences of store operations. Every connection's transactions are serialised by SQLite, so an
-- interleaving of processes is a list of operations.
use mcpmem.Prelude.{ℕ, ◌<◌, String, ◌≢◌, List, [], ◌∷◌}
use mcpmem.Oauth.Store.Records.{Store, Grant, TokenKind, CodeGrant, ClientRecord, LoginRecord}
use mcpmem.Oauth.Store.{
  Crypto, put_client, touch_client, put_login, take_login, put_code, take_code, put_token,
  take_refresh, revoke_family, revoke_principal, sweep, evict_clients,
}

pub data Op : Type 0 where
  puts_client : ClientRecord → Op
  touches_client : String → ℕ → Op
  puts_login : LoginRecord → Op
  takes_login : String → ℕ → Op
  puts_code : String → CodeGrant → ℕ → ℕ → Op
  takes_code : String → ℕ → Op
  puts_token : String → TokenKind → Grant → ℕ → ℕ → Op
  takes_refresh : String → ℕ → Op
  revokes_family : String → Op
  revokes_principal : String → Op
  sweeps : ℕ → Op
  evicts_clients : ℕ → ℕ → Op

module _ (crypto : Crypto) where
  unfoldable pub step : Op → Store → Store
  step (puts_client c) s = put_client c s
  step (touches_client id now) s = touch_client id now s
  step (puts_login l) s = (put_login l s).0
  step (takes_login state now) s = (take_login state now s).0
  step (puts_code c g t e) s = (put_code crypto c g t e s).0
  step (takes_code c now) s = (take_code crypto c now s).0
  step (puts_token t k g c e) s = (put_token crypto t k g c e s).0
  step (takes_refresh t now) s = (take_refresh crypto t now s).0
  step (revokes_family f) s = revoke_family f s
  step (revokes_principal p) s = (revoke_principal p s).0
  step (sweeps now) s = (sweep now s).0
  step (evicts_clients now idle) s = (evict_clients now idle s).0

  unfoldable pub run : List Op → Store → Store
  run [] s = s
  run (op ∷ ops) s = run ops (step op s)

  -- The operation stores no token, or no code, under the digest `d`.
  abbrev pub AvoidsToken : String → Op → Type 0
  AvoidsToken d (puts_token t k g c e) = crypto.digest t ≢ d
  AvoidsToken d (puts_client _) = Unit
  AvoidsToken d _ = Unit

  abbrev pub AvoidsCode : String → Op → Type 0
  AvoidsCode d (puts_code c g t e) = crypto.digest c ≢ d
  AvoidsCode d (puts_client _) = Unit
  AvoidsCode d _ = Unit

-- The operation stores no token of the family `f`.
abbrev pub AvoidsFamily : String → Op → Type 0
AvoidsFamily f (puts_token t k g c e) = g.family ≢ f
AvoidsFamily f (puts_client _) = Unit
AvoidsFamily f _ = Unit

-- A sweep runs at a time before `until`.
abbrev pub SweepsBefore : ℕ → Op → Type 0
SweepsBefore until (sweeps now) = now < until
SweepsBefore until (puts_client _) = Unit
SweepsBefore until _ = Unit
