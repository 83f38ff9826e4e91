-- ===== src/Prelude/Keys.antt =====
-- Tables with a primary key.
use Prim.Native.Nat.{◌≤◌}
use mathlib.Core.Path.{◌≡◌, refl, sym, ap, ◌∙◌}
use mathlib.Core.Bool.{Bool, true, false}
use mathlib.Core.Option.{some}
use mathlib.Core.List.{List, [], ◌∷◌}
use native.Mathlib.Omega.{arith}
use mathlib.Core.Logic.{inl, inr, ◌≢◌}
use mcpmem.Prelude.Tests.{if◌then◌else◌, Bool-cases, if_case, ◌==◌, Eq}
use mcpmem.Prelude.Lists.{All}
use mcpmem.Prelude.Table.{
  first_where, exists_where, count_where, update_where, delete_where, first_where-All, All-delete,
  All-update, All-map, exists_where-none,
}

module _ {ℓ μ} {A : Type ℓ} {K : Type μ} ⦃e : Eq K⦄ (key : A → K) where
  abbrev pub Keyed : List A → Type μ
  Keyed [] = Unit
  Keyed (x ∷ xs) = All (λ y. key y ≢ key x) xs × Keyed xs

  pub Keyed-delete : (test : A → Bool) (xs : List A) → Keyed xs → Keyed (delete_where test xs)
  Keyed-delete test [] k = tt
  Keyed-delete test (x ∷ xs) (a, k) = elim (Bool-cases (test x)) [
    | inl e ↦ rw e (Keyed-delete test xs k)
    | inr e ↦ rw e (All-delete _ test xs a, Keyed-delete test xs k)
  ]

  pub Keyed-update :
      (test : A → Bool) (set : A → A) (xs : List A)
      → ((x : A) → test x ≡ true → key (set x) ≡ key x)
      → Keyed xs
      → Keyed (update_where test set xs)
  Keyed-update test set [] same k = tt
  Keyed-update test set (x ∷ xs) same (a, k) = (
    All-update (λ y. key y ≢ key x) _ test set xs (λ y ne t e. ne (sym (same y t) ∙ e ∙ kept))
        (λ y ne _ e. ne (e ∙ kept)) a,
    Keyed-update test set xs same k,
  )
    where
      kept : key (if test x then set x else x) ≡ key x
      kept = if_case (λ (y : A). key y ≡ key x) (test x) (same x) (λ _. refl)

  pub Keyed-insert :
      (x : A) (xs : List A)
      → exists_where (λ y. key y == key x) xs ≡ false
      → Keyed xs
      → Keyed (x ∷ xs)
  Keyed-insert x xs h k =
      (All-map _ _ xs (λ y miss same. ground arith) (exists_where-none _ xs h), k)

  -- The selected row is the only one with its key.
  pub first_where-Keyed {κ} :
      {B : Type κ} (value : A → B) (test : A → Bool) (xs : List A) {r : A}
      → Keyed xs
      → first_where test xs ≡ some r
      → All (λ x. key x ≡ key r → value x ≡ value r) xs
  first_where-Keyed value test [] k h = tt
  first_where-Keyed value test (x ∷ xs) {r} (a, k) h = elim (Bool-cases (test x)) [
    | inl e ↦
        let same : x ≡ r = ground arith in
        (λ _. ap value same, All-map _ _ xs (λ y ne e'. absurd (ne (e' ∙ ap key (sym same)))) a)
    | inr e ↦
        let found : first_where test xs ≡ some r = ground arith in
        let elsewhere : key r ≢ key x = first_where-All (λ y. key y ≢ key x) test xs a found in
        (λ e'. absurd (elsewhere (sym e')), first_where-Keyed value test xs k found)
  ]

  -- A test that only the selected row's key meets selects the same row.
  pub first_where-same_key :
      (test other : A → Bool) (xs : List A) (r : A)
      → ((x : A) → other x ≡ true → key x ≡ key r)
      → other r ≡ true
      → Keyed xs
      → first_where test xs ≡ some r
      → first_where other xs ≡ some r
  first_where-same_key test other [] r only hit k h = h
  first_where-same_key test other (x ∷ xs) r only hit (a, k) h = elim (Bool-cases (test x)) [
    | inl e ↦ let same : x ≡ r = ground arith in rw same (rw hit refl)
    | inr e ↦
        let rest : first_where test xs ≡ some r = ground arith in
        let elsewhere : key r ≢ key x = first_where-All (λ y. key y ≢ key x) test xs a rest in
        elim (Bool-cases (other x)) [
          | inl met ↦ absurd (elsewhere (sym (only x met)))
          | inr miss ↦ rw miss (first_where-same_key test other xs r only hit k rest)
        ]
  ]

module _ {ℓ μ} {A : Type ℓ} {K : Type μ} ⦃e : Eq K⦄ (key : A → K) where
  count_where-absent :
      (k : K) (xs : List A) → All (λ x. key x ≢ k) xs → count_where (λ x. key x == k) xs ≡ 0
  count_where-absent k [] a = refl
  count_where-absent k (x ∷ xs) (ne, a) = ground (arith, count_where-absent k xs a)

  pub count_where-key : (k : K) (xs : List A) → Keyed key xs → count_where (λ x. key x == k) xs ≤ 1
  count_where-key k [] h = omega arith
  count_where-key k (x ∷ xs) (a, h) = elim (e.decide (key x) k) [
    | yes same ↦
        let none_left =
          count_where-absent k xs (All-map _ _ xs (λ y ne eq. ne (eq ∙ sym same)) a) in
        ground (arith, none_left)
    | no other ↦ ground (arith, count_where-key k xs h)
  ]
