-- ===== src/Prelude/Updates.antt =====
-- What UPDATE does to the rows that a test selects or counts.
use Prim.Native.Nat.{◌+◌, ◌≤◌}
use mathlib.Core.Path.{◌≡◌, refl, subst, ap}
use mathlib.Core.Bool.{Bool, true, false}
use mathlib.Core.Option.{some}
use mathlib.Core.List.{List, [], ◌∷◌}
use native.Mathlib.Omega.{arith}
use mathlib.Core.Logic.{inl, inr}
use mcpmem.Prelude.Tests.{if◌then◌else◌, Bool-cases, if_case}
use mcpmem.Prelude.Lists.{All}
use mcpmem.Prelude.Table.{first_where, exists_where, count_where, update_where}

module _ {ℓ} {A : Type ℓ} where
  pub count_where-none :
      (test : A → Bool) (xs : List A) → exists_where test xs ≡ false → count_where test xs ≡ 0
  count_where-none test [] h = refl
  count_where-none test (x ∷ xs) h = ground (arith, count_where-none test xs)

  -- A stricter test selects no more rows.
  pub count_where_mono :
      (test weak : A → Bool) (xs : List A)
      → ((x : A) → test x ≡ true → weak x ≡ true)
      → count_where test xs ≤ count_where weak xs
  count_where_mono test weak [] h = omega arith
  count_where_mono test weak (x ∷ xs) h = ground (arith, h x, count_where_mono test weak xs h)

  -- An UPDATE makes no more rows meet a test than it rewrites.
  pub count_where-rewritten :
      (test hit : A → Bool) (set : A → A) (xs : List A)
      → count_where test (update_where hit set xs) ≤ count_where test xs + count_where hit xs
  count_where-rewritten test hit set [] = omega arith
  count_where-rewritten test hit set (x ∷ xs) =
      ground (arith, count_where-rewritten test hit set xs)

  pub update_where-none :
      (test : A → Bool) (set : A → A) (xs : List A)
      → All (λ x. test x ≡ false) xs
      → update_where test set xs ≡ xs
  update_where-none test set [] a = refl
  update_where-none test set (x ∷ xs) (p, a) = rw p (ap (◌∷◌ x) (update_where-none test set xs a))

  -- An UPDATE that makes no row of the table meet a test does not raise the count of those that do.
  pub count_where-rows :
      (test hit : A → Bool) (set : A → A) (xs : List A)
      → All (λ x. hit x ≡ true → test (set x) ≡ true → test x ≡ true) xs
      → count_where test (update_where hit set xs) ≤ count_where test xs
  count_where-rows test hit set [] a = omega arith
  count_where-rows test hit set (x ∷ xs) (p, a) =
      ground (arith, p, count_where-rows test hit set xs a)

  pub count_where-All :
      (test : A → Bool) (xs : List A) → All (λ x. test x ≡ false) xs → count_where test xs ≡ 0
  count_where-All test [] a = refl
  count_where-All test (x ∷ xs) (p, a) = ground (arith, p, count_where-All test xs a)

  -- A second UPDATE that selects the rewritten rows and no others, and changes nothing of them.
  pub update_where-again :
      (test later : A → Bool) (set : A → A) (xs : List A)
      → ((x : A) → test x ≡ true → set (set x) ≡ set x)
      → ((x : A) → test x ≡ true → later (set x) ≡ true)
      → ((x : A) → test x ≡ false → later x ≡ false)
      → (update_where later set (update_where test set xs) ≡ update_where test set xs)
        × (count_where later (update_where test set xs) ≡ count_where test xs)
  update_where-again test later set [] same hit miss = (refl, refl)
  update_where-again test later set (x ∷ xs) same hit miss =
      let (rows, number) = update_where-again test later set xs same hit miss in
      elim (Bool-cases (test x)) [
        | inl e ↦ rw (e, hit x e, same x e, rows, number) (refl, refl)
        | inr e ↦ rw (e, miss x e, rows, number) (refl, refl)
      ]

  pub count_where-same :
      (test other : A → Bool) (xs : List A)
      → All (λ x. test x ≡ other x) xs
      → count_where test xs ≡ count_where other xs
  count_where-same test other [] a = refl
  count_where-same test other (x ∷ xs) (p, a) = ground (arith, p, count_where-same test other xs a)

  pub count_where-kept :
      (test hit : A → Bool) (set : A → A) (xs : List A)
      → ((x : A) → test (set x) ≡ test x)
      → count_where test (update_where hit set xs) ≡ count_where test xs
  count_where-kept test hit set [] h = refl
  count_where-kept test hit set (x ∷ xs) h = ground (arith, h x, count_where-kept test hit set xs h)

  -- An UPDATE that keeps the key leaves the selected row the selected one.
  pub first_where-update :
      (test hit : A → Bool) (set : A → A) (xs : List A) (r : A)
      → ((x : A) → test (set x) ≡ test x)
      → first_where test xs ≡ some r
      → first_where test (update_where hit set xs) ≡ some (if hit r then set r else r)
  first_where-update test hit set [] r same h = let no : ⊥ = ground arith in absurd no
  first_where-update test hit set (x ∷ xs) r same h = elim (Bool-cases (test x)) [
    | inl e ↦
        let here : x ≡ r = ground arith in
        subst
          (λ q.
            first_where test (update_where hit set (x ∷ xs)) ≡ some (if hit q then set q else q))
          here
          (if_case (λ q. first_where test (q ∷ update_where hit set xs) ≡ some q) (hit x)
            (λ _. ground (arith, same x)) (λ _. ground arith))
    | inr e ↦
        let rest : first_where test xs ≡ some r = ground arith in
        let below = first_where-update test hit set xs r same rest in
        if_case
          (λ q. first_where test (q ∷ update_where hit set xs) ≡ some (if hit r then set r else r))
          (hit x) (λ _. ground (arith, same x)) (λ _. ground arith)
  ]
