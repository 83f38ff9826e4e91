-- ===== src/Oauth/Store/Principal.antt =====
-- What revoking a principal leaves behind.
use mcpmem.Prelude.{
  ℕ, String, Bool, true, false, not, ◌&&◌, ◌≡◌, refl, ◌≢◌, ◌⊎◌, some, List, [], ◌∷◌, map, All,
  Option-cases, Bool-cases, inl, inr, All-map, All-of, ◌==◌, text_eq, exists_where, All-zip,
  first_where, first_where-All, first_where-test, arith, String-discrete, select, delete_where-All,
}
use mcpmem.Oauth.Store.Records.{
  Store, Grant, TokenRow, CodeRow, LoginRecord, CodeGrant, refresh, access, CodeOutcome,
  RefreshOutcome, is_of,
}
use mcpmem.Oauth.Store.{
  Crypto, find_access, take_code, take_refresh, revoke_family, live_code, take_login, live_login,
  live_token, revoke_families, families_of, distinct, revoke_principal,
}
use mcpmem.Oauth.Store.Revocation.{Dead, Dead-stable, revoke_family-Dead}
use mcpmem.Oauth.Store.SingleUse.{take_refresh-Redeems}
use mcpmem.Oauth.Store.Rows.{IsStable, revoke_families-All}

-- The families that `revoke_principal` collects cover every living token of the principal.
abbrev Covered : List String → TokenRow → Type 0
Covered fs r = exists_where (λ f. f == r.grant.family) fs ≡ true → r.revoked ≡ true

Covered-nil : (s : Store) → All (Covered []) s.tokens
Covered-nil s = All-of _ s.tokens (λ r h. cc)

revoke_families-Covered :
    (fs : List String) (s : Store) → All (Covered fs) (revoke_families fs s).tokens
unfolding revoke_families
revoke_families-Covered [] s = Covered-nil s
revoke_families-Covered (f ∷ fs) s =
    All-map _ _ after.tokens (λ r both h. ground (arith, both.0, both.1))
      (All-zip (Covered fs) (Dead f) after.tokens (revoke_families-Covered fs (revoke_family f s)) (
        revoke_families-All (Dead f) (Dead-stable f) fs (revoke_family f s)
          (revoke_family-Dead f s)))
  where
    after : Store
    after = revoke_families fs (revoke_family f s)

exists-distinct :
    (f : String) (fs : List String)
    → exists_where (λ g. g == f) fs ≡ true
    → exists_where (λ g. g == f) (distinct fs) ≡ true
unfolding distinct
exists-distinct f [] h = h
exists-distinct f (g ∷ fs) h = elim (Bool-cases (exists_where (λ x. x == g) fs)) [
  | inl e ↦ rw e (
      exists-distinct f fs
        (elim (String-discrete g f) [ yes same ↦ rw (← same) e | no other ↦ ground arith ]))
  | inr e ↦ rw e (ground (arith, exists-distinct f fs))
]

select-covers :
    (test : TokenRow → Bool) (rs : List TokenRow)
    → All
        (λ r.
          test r ≡ true
          → exists_where (λ f. f == r.grant.family) (map (λ r. r.grant.family) (select test rs))
            ≡ true)
        rs
select-covers test [] = tt
select-covers test (x ∷ rs) =
    (λ h. ground arith, All-map _ _ rs (λ r f h. ground (arith, f h)) (select-covers test rs))

-- Alive and of the principal: then among the collected families.
abbrev Collected : String → List String → TokenRow → Type 0
Collected p fs r =
    r.grant.principal ≡ p → (r.revoked ≡ true) ⊎ (exists_where (λ f. f == r.grant.family) fs ≡ true)

Collected-stable : (p : String) (fs : List String) → IsStable (Collected p fs)
Collected-stable p fs = record { revoked = λ r h e. inl refl; spent = λ r h. h }

families_of-Collected : (p : String) (rs : List TokenRow) → All (Collected p (families_of p rs)) rs
unfolding families_of
families_of-Collected p rs =
    All-map _ _ rs
      (λ r covers same. elim (Bool-cases r.revoked) [
        | inl e ↦ inl e
        | inr e ↦ inr (exists-distinct r.grant.family _ (covers (ground arith)))
      ])
      (select-covers (λ r. r.grant.principal == p && not r.revoked) rs)

abbrev pub DeadOf : String → TokenRow → Type 0
DeadOf p r = r.grant.principal ≡ p → r.revoked ≡ true

revoke_principal-tokens : (p : String) (s : Store) → All (DeadOf p) (revoke_principal p s).0.tokens
unfolding revoke_principal
revoke_principal-tokens p s =
    All-map _ _ (revoke_families fs s).tokens
      (λ r both same. elim (both.0 same) [ inl revoked ↦ revoked | inr listed ↦ both.1 listed ])
      (All-zip (Collected p fs) (Covered fs) (revoke_families fs s).tokens
        (revoke_families-All (Collected p fs) (Collected-stable p fs) fs s
          (families_of-Collected p s.tokens))
        (revoke_families-Covered fs s))
  where
    fs : List String
    fs = families_of p s.tokens

DeadOf-find_access :
    (crypto : Crypto) (p t : String) (now : ℕ) (s : Store) (g : Grant)
    → All (DeadOf p) s.tokens
    → find_access crypto t now s ≡ some g
    → g.principal ≢ p
unfolding find_access
DeadOf-find_access crypto p t now s g a h same =
    elim (Option-cases (first_where (live_token crypto access t now) s.tokens)) [
      | inl e ↦ ground arith
      | inr (r, e) ↦
          let live = first_where-test (live_token crypto access t now) s.tokens e in
          let is_g : r.grant ≡ g = ground arith in
          let revoked : r.revoked ≡ true =
            first_where-All (DeadOf p) (live_token crypto access t now) s.tokens a e
              (rw is_g same) in
          ground arith
    ]

DeadOf-take_refresh :
    (crypto : Crypto) (p t : String) (now : ℕ) (s : Store) (g : Grant)
    → All (DeadOf p) s.tokens
    → (take_refresh crypto t now s).1 ≡ RefreshOutcome.valid g
    → g.principal ≢ p
DeadOf-take_refresh crypto p t now s g a h same =
    let v = take_refresh-Redeems crypto t now s g h in
    let live = first_where-test (live_token crypto refresh t now) s.tokens v.found in
    let revoked : v.row.revoked ≡ true =
      first_where-All (DeadOf p) (live_token crypto refresh t now) s.tokens a v.found
        (rw v.grant same) in
    ground arith

revoke_principal-codes :
    (p : String) (s : Store)
    → All (λ r. (r.code.grant.principal == p) ≡ false) (revoke_principal p s).0.codes
unfolding revoke_principal
revoke_principal-codes p s =
    delete_where-All (λ r. r.code.grant.principal == p)
      (revoke_families (families_of p s.tokens) s).codes

take_code-valid :
    (crypto : Crypto) (c : String) (now : ℕ) (s : Store) (g : CodeGrant)
    → (take_code crypto c now s).1 ≡ CodeOutcome.valid g
    → (r : CodeRow) × (first_where (live_code crypto c now) s.codes ≡ some r) × (r.code ≡ g)
unfolding take_code
take_code-valid crypto c now s g h =
    elim (Option-cases (first_where (live_code crypto c now) s.codes)) [
      | inl e ↦ let no_row : ⊥ = ground arith in absurd no_row
      | inr (r, e) ↦ (r, e, ground arith)
    ]

revoke_principal-take_login :
    (p state : String) (now : ℕ) (s : Store) (l : LoginRecord)
    → (take_login state now (revoke_principal p s).0).1 ≡ some l
    → l.principal ≢ some p
unfolding revoke_principal take_login
revoke_principal-take_login p state now s l h same =
    let kept : is_of p l.principal ≡ false =
      first_where-All (λ (r : LoginRecord). is_of p r.principal ≡ false) (live_login state now) _
        (delete_where-All (λ r. is_of p r.principal)
          (revoke_families (families_of p s.tokens) s).logins)
        h in
    ground arith

-- After `revoke_principal` nothing that the store holds works for that principal any more: no bearer
-- token is accepted for it, no refresh token and no code is redeemed for it, and no login that names
-- it can be continued.
pub revoke_principal_ends :
    (crypto : Crypto) (p value : String) (now : ℕ) (s : Store) (g : Grant) (c : CodeGrant)
    (l : LoginRecord)
    → g.principal ≡ p
    → c.grant.principal ≡ p
    → l.principal ≡ some p
    → let s' = (revoke_principal p s).0 in
      (find_access crypto value now s' ≢ some g)
      × ((take_refresh crypto value now s').1 ≢ RefreshOutcome.valid g)
      × ((take_code crypto value now s').1 ≢ CodeOutcome.valid c)
      × ((take_login value now s').1 ≢ some l)
revoke_principal_ends crypto p value now s g c l of_g of_c of_l = (
  λ h. DeadOf-find_access crypto p value now _ g (revoke_principal-tokens p s) h of_g,
  λ h. DeadOf-take_refresh crypto p value now _ g (revoke_principal-tokens p s) h of_g,
  λ h.
      let (r, found, is_c) = take_code-valid crypto value now _ c h in
      let other : (r.code.grant.principal == p) ≡ false =
        first_where-All (λ (x : CodeRow). (x.code.grant.principal == p) ≡ false)
          (live_code crypto value now) _ (revoke_principal-codes p s) found in
      ground arith,
  λ h. revoke_principal-take_login p value now s l h of_l,
)
