-- ===== src/Oauth/Store/SingleUse.antt =====
-- A refresh token and an authorization code are redeemed once, whatever happens in between.
use mcpmem.Prelude.{
  ℕ, String, true, false, ◌≡◌, refl, ◌≢◌, some, List, All, Option-cases, inl, inr, All-update,
  All-map, All-of, update_where, ◌==◌, text_eq, first_where, first_where-All, first_where-test,
  arith,
}
use mcpmem.Oauth.Store.Records.{
  Store, Grant, TokenRow, CodeRow, CodeGrant, refresh, CodeOutcome, RefreshOutcome,
}
use mcpmem.Oauth.Store.{Crypto, take_code, take_refresh, live_code, live_token}
use mcpmem.Oauth.Store.Trace.{Op, puts_token, puts_code, puts_client, run, AvoidsToken, AvoidsCode}
use mcpmem.Oauth.Store.Rows.{IsStable, Adds, run-All, spent_row}
use mcpmem.Oauth.Store.CodeRows.{spent_code, AddsCode, run-All_codes}

-- Every row under the digest is spent.
abbrev pub Spent : String → TokenRow → Type 0
Spent d r = r.token_digest ≡ d → r.spent ≡ true

abbrev pub SpentCode : String → CodeRow → Type 0
SpentCode d r = r.code_digest ≡ d → r.spent ≡ true

Spent-stable : (d : String) → IsStable (Spent d)
Spent-stable d = record { revoked = λ r h. h; spent = λ r h e. refl }

Adds-Spent :
    (crypto : Crypto) (d : String) (op : Op)
    → AvoidsToken crypto d op
    → Adds (Spent d) (Spent-stable d) crypto op
Adds-Spent crypto d (puts_token t k g c e) h = λ same. absurd (h same)
Adds-Spent crypto d (puts_client c) h = tt
Adds-Spent crypto d _ h = tt

-- The row behind a valid redemption, and the store that it leaves.
pub record Redeems (crypto : Crypto) (t : String) (now : ℕ) (s : Store) (g : Grant) : Type 0 where
  pub row : TokenRow
  pub found : first_where (live_token crypto refresh t now) s.tokens ≡ some row
  pub unspent : row.spent ≡ false
  pub grant : row.grant ≡ g
  pub left :
      (take_refresh crypto t now s).0.tokens
      ≡ update_where (λ r. r.token_digest == crypto.digest t) spent_row s.tokens

pub take_refresh-Redeems :
    (crypto : Crypto) (t : String) (now : ℕ) (s : Store) (g : Grant)
    → (take_refresh crypto t now s).1 ≡ RefreshOutcome.valid g
    → Redeems crypto t now s g
unfolding take_refresh
take_refresh-Redeems crypto t now s g h =
    elim (Option-cases (first_where (live_token crypto refresh t now) s.tokens)) [
      | inl e ↦ let no_row : ⊥ = ground arith in absurd no_row
      | inr (r, e) ↦ record {
        row = r;
        found = e;
        unspent = ground arith;
        grant = ground arith;
        left = ground arith;
      }
    ]

take_refresh-Spent :
    (crypto : Crypto) (t : String) (now : ℕ) (s : Store) (g : Grant)
    → (take_refresh crypto t now s).1 ≡ RefreshOutcome.valid g
    → All (Spent (crypto.digest t)) (take_refresh crypto t now s).0.tokens
take_refresh-Spent crypto t now s g h =
    let v = take_refresh-Redeems crypto t now s g h in
    rw v.left (
      All-update (λ _. Unit {0}) (Spent (crypto.digest t)) (λ r. r.token_digest == crypto.digest t)
        spent_row s.tokens (λ r _ _ _. refl) (λ r _ miss same. ground arith)
        (All-of _ s.tokens (λ _. tt)))

Spent-take_refresh :
    (crypto : Crypto) (t : String) (now : ℕ) (s : Store) (g : Grant)
    → All (Spent (crypto.digest t)) s.tokens
    → (take_refresh crypto t now s).1 ≢ RefreshOutcome.valid g
Spent-take_refresh crypto t now s g a h =
    let v = take_refresh-Redeems crypto t now s g h in
    let same = first_where-test (live_token crypto refresh t now) s.tokens v.found in
    let spent : v.row.spent ≡ true =
      first_where-All (Spent (crypto.digest t)) (live_token crypto refresh t now) s.tokens a v.found
        (ground arith) in
    ground arith

-- Once a refresh token was redeemed it is never redeemed again: not by the next presentation, and not
-- after any operations of this or another process that store no token under the same digest.
pub take_refresh_once :
    (crypto : Crypto) (t : String) (now later : ℕ) (s : Store) (g g' : Grant) (ops : List Op)
    → (take_refresh crypto t now s).1 ≡ RefreshOutcome.valid g
    → All (AvoidsToken crypto (crypto.digest t)) ops
    → (take_refresh crypto t later (run crypto ops (take_refresh crypto t now s).0)).1
      ≢ RefreshOutcome.valid g'
take_refresh_once crypto t now later s g g' ops h avoids = Spent-take_refresh crypto t later _ g' (
    run-All (Spent d) (Spent-stable d) crypto ops _ (All-map _ _ ops (Adds-Spent crypto d) avoids)
      (take_refresh-Spent crypto t now s g h))
  where
    d : String
    d = crypto.digest t

-- The same for codes.
record RedeemsCode (crypto : Crypto) (c : String) (now : ℕ) (s : Store) (g : CodeGrant)
    : Type 0 where
  row : CodeRow
  found : first_where (live_code crypto c now) s.codes ≡ some row
  unspent : row.spent ≡ false
  left :
      (take_code crypto c now s).0.codes
      ≡ update_where (λ r. r.code_digest == crypto.digest c) spent_code s.codes

take_code-RedeemsCode :
    (crypto : Crypto) (c : String) (now : ℕ) (s : Store) (g : CodeGrant)
    → (take_code crypto c now s).1 ≡ CodeOutcome.valid g
    → RedeemsCode crypto c now s g
unfolding take_code
take_code-RedeemsCode crypto c now s g h =
    elim (Option-cases (first_where (live_code crypto c now) s.codes)) [
      | inl e ↦ let no_row : ⊥ = ground arith in absurd no_row
      | inr (r, e) ↦ record { row = r; found = e; unspent = ground arith; left = ground arith }
    ]

pub take_code-Spent :
    (crypto : Crypto) (c : String) (now : ℕ) (s : Store) (g : CodeGrant)
    → (take_code crypto c now s).1 ≡ CodeOutcome.valid g
    → All (SpentCode (crypto.digest c)) (take_code crypto c now s).0.codes
take_code-Spent crypto c now s g h =
    let v = take_code-RedeemsCode crypto c now s g h in
    rw v.left (
      All-update (λ _. Unit {0}) (SpentCode (crypto.digest c))
        (λ r. r.code_digest == crypto.digest c) spent_code s.codes (λ r _ _ _. refl)
        (λ r _ miss same. ground arith) (All-of _ s.codes (λ _. tt)))

pub Spent-take_code :
    (crypto : Crypto) (c : String) (now : ℕ) (s : Store) (g : CodeGrant)
    → All (SpentCode (crypto.digest c)) s.codes
    → (take_code crypto c now s).1 ≢ CodeOutcome.valid g
Spent-take_code crypto c now s g a h =
    let v = take_code-RedeemsCode crypto c now s g h in
    let same = first_where-test (live_code crypto c now) s.codes v.found in
    let spent : v.row.spent ≡ true =
      first_where-All (SpentCode (crypto.digest c)) (live_code crypto c now) s.codes a v.found
        (ground arith) in
    ground arith

AddsCode-Spent :
    (crypto : Crypto) (d : String) (op : Op)
    → AvoidsCode crypto d op
    → AddsCode (SpentCode d) (λ r h e. refl) crypto op
AddsCode-Spent crypto d (puts_code c g t e) h = λ same. absurd (h same)
AddsCode-Spent crypto d (puts_client c) h = tt
AddsCode-Spent crypto d _ h = tt

-- What marks a code as spent stays, while no code is stored under its digest.
pub run-SpentCode :
    (crypto : Crypto) (d : String) (s : Store) (ops : List Op)
    → All (AvoidsCode crypto d) ops
    → All (SpentCode d) s.codes
    → All (SpentCode d) (run crypto ops s).codes
run-SpentCode crypto d s ops avoids a =
    run-All_codes (SpentCode d) (λ r h e. refl) crypto ops s
      (All-map _ _ ops (AddsCode-Spent crypto d) avoids) a
