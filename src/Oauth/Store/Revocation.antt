-- ===== src/Oauth/Store/Revocation.antt =====
-- What revoking a family and a replay leave behind.
use mcpmem.Prelude.{
  ℕ, String, true, ◌≡◌, refl, ◌≢◌, some, List, All, Option-cases, inl, inr, ◌⊎◌, All-update,
  All-map, All-of, ◌==◌, text_eq, first_where, first_where-All, first_where-test, arith, ◌∙◌, ap,
}
use mcpmem.Oauth.Store.Records.{Store, Grant, TokenRow, refresh, access, RefreshOutcome}
use mcpmem.Oauth.Store.{Crypto, find_access, take_refresh, revoke_family, live_token}
use mcpmem.Oauth.Store.Trace.{Op, puts_token, puts_client, run, AvoidsFamily}
use mcpmem.Oauth.Store.SingleUse.{take_refresh-Redeems}
use mcpmem.Oauth.Store.Rows.{IsStable, Adds, run-All, revoked_row}

-- No token of the family is alive.
abbrev pub Dead : String → TokenRow → Type 0
Dead f r = r.grant.family ≡ f → r.revoked ≡ true

pub Dead-stable : (f : String) → IsStable (Dead f)
Dead-stable f = record { revoked = λ r h e. refl; spent = λ r h. h }

Adds-Dead :
    (crypto : Crypto) (f : String) (op : Op)
    → AvoidsFamily f op
    → Adds (Dead f) (Dead-stable f) crypto op
Adds-Dead crypto f (puts_token t k g c e) h = λ same. absurd (h same)
Adds-Dead crypto f (puts_client c) h = tt
Adds-Dead crypto f _ h = tt

pub revoke_family-Dead : (f : String) (s : Store) → All (Dead f) (revoke_family f s).tokens
unfolding revoke_family
revoke_family-Dead f s =
    All-update (λ _. Unit {0}) (Dead f) (λ r. r.grant.family == f) revoked_row s.tokens
      (λ r _ _ _. refl) (λ r _ miss same. ground arith) (All-of _ s.tokens (λ _. tt))

pub run-Dead :
    (crypto : Crypto) (f : String) (ops : List Op) (s : Store)
    → All (AvoidsFamily f) ops
    → All (Dead f) s.tokens
    → All (Dead f) (run crypto ops s).tokens
run-Dead crypto f ops s avoids a =
    run-All (Dead f) (Dead-stable f) crypto ops s (All-map _ _ ops (Adds-Dead crypto f) avoids) a

-- A dead family answers no bearer token.
pub Dead-find_access :
    (crypto : Crypto) (f t : String) (now : ℕ) (s : Store) (g : Grant)
    → All (Dead f) s.tokens
    → find_access crypto t now s ≡ some g
    → g.family ≢ f
unfolding find_access
Dead-find_access crypto f t now s g a h same =
    elim (Option-cases (first_where (live_token crypto access t now) s.tokens)) [
      | inl e ↦ ground arith
      | inr (r, e) ↦
          let live = first_where-test (live_token crypto access t now) s.tokens e in
          let is_g : r.grant ≡ g = ground arith in
          let revoked : r.revoked ≡ true =
            first_where-All (Dead f) (live_token crypto access t now) s.tokens a e (rw is_g same) in
          ground arith
    ]

-- ... and redeems no refresh token.
Dead-take_refresh :
    (crypto : Crypto) (f t : String) (now : ℕ) (s : Store) (g : Grant)
    → All (Dead f) s.tokens
    → (take_refresh crypto t now s).1 ≡ RefreshOutcome.valid g
    → g.family ≢ f
Dead-take_refresh crypto f t now s g a h same =
    let v = take_refresh-Redeems crypto t now s g h in
    let live = first_where-test (live_token crypto refresh t now) s.tokens v.found in
    let is_g : v.row.grant ≡ g = v.grant in
    let revoked : v.row.revoked ≡ true =
      first_where-All (Dead f) (live_token crypto refresh t now) s.tokens a v.found
        (ap (λ (q : Grant). q.family) is_g ∙ same) in
    ground arith

-- The token works, as a bearer or for a redemption, with the grant `g`.
abbrev pub Works : Crypto → String → ℕ → Store → Grant → Type 0
Works crypto t now s g =
    (find_access crypto t now s ≡ some g)
    ⊎ ((take_refresh crypto t now s).1 ≡ RefreshOutcome.valid g)

pub Dead-Works :
    (crypto : Crypto) (f t : String) (now : ℕ) (s : Store) (g : Grant)
    → All (Dead f) s.tokens
    → Works crypto t now s g
    → g.family ≢ f
Dead-Works crypto f t now s g a (inl h) = Dead-find_access crypto f t now s g a h
Dead-Works crypto f t now s g a (inr h) = Dead-take_refresh crypto f t now s g a h
