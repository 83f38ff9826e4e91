-- ===== src/Prelude/Table.antt =====
-- A table is the list of its rows, and the WHERE clause of a statement is a test on a row.
use Prim.Native.Nat.{ℕ, suc, ◌≤◌}
use mathlib.Core.Path.{◌≡◌, refl, subst, ap}
use mathlib.Core.Bool.{Bool, true, false}
use mathlib.Core.Option.{Option, none, some}
use mathlib.Core.List.{List, [], ◌∷◌, ◌++◌}
use native.Mathlib.Omega.{arith}
use mathlib.Core.Logic.{inl, inr}
use mcpmem.Prelude.Tests.{if◌then◌else◌, Bool-cases}
use mcpmem.Prelude.Lists.{All}

module _ {ℓ} {A : Type ℓ} where
  -- SELECT … WHERE test, in the order of the rows.
  abbrev pub select : (A → Bool) → List A → List A
  select test [] = []
  select test (x ∷ xs) = let rest = select test xs in if test x then x ∷ rest else rest

  -- The row that a SELECT by a unique key returns.
  abbrev pub first_where : (A → Bool) → List A → Option A
  first_where test [] = none
  first_where test (x ∷ xs) = let rest = first_where test xs in if test x then some x else rest

  -- SELECT EXISTS(SELECT 1 … WHERE test)
  abbrev pub exists_where : (A → Bool) → List A → Bool
  exists_where test [] = false
  exists_where test (x ∷ xs) = let rest = exists_where test xs in if test x then true else rest

  -- SELECT COUNT(*) … WHERE test
  abbrev pub count_where : (A → Bool) → List A → ℕ
  count_where test [] = 0
  count_where test (x ∷ xs) = let rest = count_where test xs in if test x then suc rest else rest

  -- UPDATE … SET set WHERE test
  abbrev pub update_where : (A → Bool) → (A → A) → List A → List A
  update_where test set [] = []
  update_where test set (x ∷ xs) = (if test x then set x else x) ∷ update_where test set xs

  -- DELETE … WHERE test
  abbrev pub delete_where : (A → Bool) → List A → List A
  delete_where test [] = []
  delete_where test (x ∷ xs) = let rest = delete_where test xs in if test x then rest else x ∷ rest

  pub first_where-test :
      (test : A → Bool) (xs : List A) {x : A} → first_where test xs ≡ some x → test x ≡ true
  first_where-test test [] h = cc
  first_where-test test (y ∷ ys) {x} h = ground (arith, first_where-test test ys {x = x})

  pub first_where-delete :
      (test gone : A → Bool) (xs : List A)
      → ((x : A) → test x ≡ true → gone x ≡ false)
      → first_where test (delete_where gone xs) ≡ first_where test xs
  first_where-delete test gone [] h = refl
  first_where-delete test gone (x ∷ xs) h = ground (arith, h x, first_where-delete test gone xs h)

  -- A DELETE that spares the selected row leaves it the selected one.
  pub first_where-spared :
      (test gone : A → Bool) (xs : List A) (x : A)
      → first_where test xs ≡ some x
      → gone x ≡ false
      → first_where test (delete_where gone xs) ≡ some x
  first_where-spared test gone [] x h e = h
  first_where-spared test gone (y ∷ ys) x h e = elim (Bool-cases (test y)) [
    | inl hit ↦
        let same : y ≡ x = ground arith in
        let stays : gone y ≡ false = rw same e in rw (stays, hit) (ap some same)
    | inr miss ↦
        let rest : first_where test ys ≡ some x = ground arith in
        ground (arith, first_where-spared test gone ys x rest e)
  ]

  -- The row that a test selects is selected by every narrower test that it meets.
  pub first_where-narrower :
      (weak test : A → Bool) (xs : List A) (r : A)
      → ((x : A) → test x ≡ true → weak x ≡ true)
      → test r ≡ true
      → first_where weak xs ≡ some r
      → first_where test xs ≡ some r
  first_where-narrower weak test [] r narrow hit h = h
  first_where-narrower weak test (x ∷ xs) r narrow hit h = elim (Bool-cases (weak x)) [
    | inl e ↦ let same : x ≡ r = ground arith in rw same (rw hit refl)
    | inr e ↦
        let rest : first_where weak xs ≡ some r = ground arith in
        ground (arith, narrow x, first_where-narrower weak test xs r narrow hit rest)
  ]

  -- Every row that a DELETE leaves fails its test.
  pub delete_where-All :
      (test : A → Bool) (xs : List A) → All (λ x. test x ≡ false) (delete_where test xs)
  delete_where-All test [] = tt
  delete_where-All test (x ∷ xs) = ground (arith, delete_where-All test xs)

  pub count_where-update :
      (test hit : A → Bool) (set : A → A) (xs : List A)
      → ((x : A) → hit x ≡ true → test (set x) ≡ true → test x ≡ true)
      → count_where test (update_where hit set xs) ≤ count_where test xs
  count_where-update test hit set [] h = omega arith
  count_where-update test hit set (x ∷ xs) h =
      ground (arith, h x, count_where-update test hit set xs h)

  pub count_where-delete :
      (test gone : A → Bool) (xs : List A)
      → count_where test (delete_where gone xs) ≤ count_where test xs
  count_where-delete test gone [] = omega arith
  count_where-delete test gone (x ∷ xs) = ground (arith, count_where-delete test gone xs)

  pub exists_where-none :
      (test : A → Bool) (xs : List A) → exists_where test xs ≡ false → All (λ x. test x ≡ false) xs
  exists_where-none test [] h = tt
  exists_where-none test (x ∷ xs) h = ground (arith, exists_where-none test xs)

-- What holds of every row, and what a statement makes of it.
module _ {ℓ κ} {A : Type ℓ} (P : A → Type κ) where
  pub first_where-All :
      (test : A → Bool) (xs : List A) {x : A} → All P xs → first_where test xs ≡ some x → P x
  first_where-All test [] a h = cc
  first_where-All test (y ∷ ys) {x} (p, a) h = elim (Bool-cases (test y)) [
    | inl e ↦ let same : y ≡ x = ground arith in subst P same p
    | inr e ↦ first_where-All test ys a (rw e at h)
  ]

  pub All-delete : (test : A → Bool) (xs : List A) → All P xs → All P (delete_where test xs)
  All-delete test [] a = tt
  All-delete test (x ∷ xs) (p, a) = elim (Bool-cases (test x)) [
    | inl e ↦ rw e (All-delete test xs a)
    | inr e ↦ rw e (p, All-delete test xs a)
  ]

  pub All-update {μ} :
      (Q : A → Type μ) (test : A → Bool) (set : A → A) (xs : List A)
      → ((x : A) → P x → test x ≡ true → Q (set x))
      → ((x : A) → P x → test x ≡ false → Q x)
      → All P xs
      → All Q (update_where test set xs)
  All-update Q test set [] hit miss a = tt
  All-update Q test set (x ∷ xs) hit miss (p, a) = elim (Bool-cases (test x)) [
    | inl e ↦ rw e (hit x p e, All-update Q test set xs hit miss a)
    | inr e ↦ rw e (miss x p e, All-update Q test set xs hit miss a)
  ]

  pub All-map {μ} : (Q : A → Type μ) (xs : List A) → ((x : A) → P x → Q x) → All P xs → All Q xs
  All-map Q [] f a = tt
  All-map Q (x ∷ xs) f (p, a) = (f x p, All-map Q xs f a)

  pub All-append : (xs ys : List A) → All P xs → All P ys → All P (xs ++ ys)
  All-append [] ys a b = b
  All-append (x ∷ xs) ys (p, a) b = (p, All-append xs ys a b)

  pub All-of : (xs : List A) → ((x : A) → P x) → All P xs
  All-of [] f = tt
  All-of (x ∷ xs) f = (f x, All-of xs f)

module _ {ℓ κ μ} {A : Type ℓ} (P : A → Type κ) (Q : A → Type μ) where
  pub All-zip : (xs : List A) → All P xs → All Q xs → All (λ x. P x × Q x) xs
  All-zip [] a b = tt
  All-zip (x ∷ xs) (p, a) (q, b) = ((p, q), All-zip xs a b)
