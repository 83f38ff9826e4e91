-- ===== src/Prelude/Selects.antt =====
-- What SELECT returns of the rows that INSERT and DELETE leave.
use mathlib.Core.Path.{◌≡◌, refl, ap}
use mathlib.Core.Bool.{Bool, true, false}
use mathlib.Core.List.{List, [], ◌∷◌, ◌++◌}
use native.Mathlib.Omega.{arith}
use mathlib.Core.Logic.{inl, inr}
use mcpmem.Prelude.Tests.{Bool-cases}
use mcpmem.Prelude.Lists.{All}
use mcpmem.Prelude.Table.{select, delete_where}

module _ {ℓ} {A : Type ℓ} (test : A → Bool) where
  pub select-append : (xs ys : List A) → select test (xs ++ ys) ≡ select test xs ++ select test ys
  select-append [] ys = refl
  select-append (x ∷ xs) ys = elim (Bool-cases (test x)) [
    | inl e ↦ rw e (ap (◌∷◌ x) (select-append xs ys))
    | inr e ↦ rw e (select-append xs ys)
  ]

  pub select_all : (xs : List A) → All (λ x. test x ≡ true) xs → select test xs ≡ xs
  select_all [] a = refl
  select_all (x ∷ xs) (p, a) = rw p (ap (◌∷◌ x) (select_all xs a))

  pub select_none : (xs : List A) → All (λ x. test x ≡ false) xs → select test xs ≡ []
  select_none [] a = refl
  select_none (x ∷ xs) (p, a) = rw p (select_none xs a)

  pub delete_where-append :
      (xs ys : List A)
      → All (λ x. test x ≡ true) xs
      → delete_where test (xs ++ ys) ≡ delete_where test ys
  delete_where-append [] ys a = refl
  delete_where-append (x ∷ xs) ys (p, a) = rw p (delete_where-append xs ys a)

  pub delete_where_twice :
      (xs : List A) → delete_where test (delete_where test xs) ≡ delete_where test xs
  delete_where_twice [] = refl
  delete_where_twice (x ∷ xs) = ground (arith, delete_where_twice xs)
