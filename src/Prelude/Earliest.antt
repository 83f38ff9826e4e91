-- ===== src/Prelude/Earliest.antt =====
-- `SELECT … WHERE test ORDER BY … LIMIT 1`: the row before which the order puts no other.
use Prim.Native.Nat.{◌≤◌}
use mathlib.Core.Path.{◌≡◌, subst, sym, ap, ◌∙◌}
use mathlib.Core.Bool.{Bool, true, false}
use mathlib.Core.Option.{Option, none, some}
use mathlib.Core.List.{List, [], ◌∷◌}
use mathlib.Core.Logic.{inl, inr, ◌≢◌, ◌⊎◌}
use native.Mathlib.Omega.{arith}
use mcpmem.Prelude.Tests.{if◌then◌else◌, Bool-cases, Option-cases, ◌==◌, Eq}
use mcpmem.Prelude.Lists.{All}
use mcpmem.Prelude.Table.{count_where, All-map}
use mcpmem.Prelude.Keys.{Keyed}

module _ {ℓ} {A : Type ℓ} (before : A → A → Bool) where
  unfoldable pub earliest : (A → Bool) → List A → Option A
  earliest test [] = none
  earliest test (d ∷ ds) =
      let rest = earliest test ds in
      if test d
      then elim rest [ none ↦ some d | some e ↦ some (if before e d then e else d) ]
      else rest

  -- If none is taken, no row meets the test.
  pub earliest-none :
      (test : A → Bool) (ds : List A) → earliest test ds ≡ none → All (λ x. test x ≡ false) ds
  unfolding earliest
  earliest-none test [] h = tt
  earliest-none test (d ∷ ds) h = ground (arith, earliest-none test ds)

  pub earliest-test :
      (test : A → Bool) (ds : List A) (d : A) → earliest test ds ≡ some d → test d ≡ true
  unfolding earliest
  earliest-test test [] d h = cc
  earliest-test test (x ∷ ds) d h = elim (Option-cases (earliest test ds)) [
    | inl e ↦ ground arith
    | inr (y, e) ↦ ground (arith, earliest-test test ds y e)
  ]

  -- What holds of every row holds of the chosen one.
  pub earliest-All {κ} :
      (P : A → Type κ) (test : A → Bool) (ds : List A) (d : A)
      → All P ds
      → earliest test ds ≡ some d
      → P d
  unfolding earliest
  earliest-All P test [] d a h = cc
  earliest-All P test (x ∷ ds) d (p, a) h = elim (Bool-cases (test x)) [
    | inr miss ↦ earliest-All P test ds d a (rw miss at h)
    | inl hit ↦ elim (Option-cases (earliest test ds)) [
      | inl e ↦ let same : x ≡ d = ground arith in subst P same p
      | inr (y, e) ↦ elim (Bool-cases (before y x)) [
        | inl sooner ↦
            let same : y ≡ d = ground arith in subst P same (earliest-All P test ds y a e)
        | inr later ↦ let same : x ≡ d = ground arith in subst P same p
      ]
    ]
  ]

  -- The chosen row is the head, or it is chosen from the tail.
  earliest-split :
      (test : A → Bool) (x : A) (ds : List A) (d : A)
      → earliest test (x ∷ ds) ≡ some d
      → (x ≡ d) ⊎ (earliest test ds ≡ some d)
  unfolding earliest
  earliest-split test x ds d h = elim (Bool-cases (test x)) [
    | inr miss ↦ inr (rw miss at h)
    | inl hit ↦ elim (Option-cases (earliest test ds)) [
      | inl e ↦ inl (ground arith)
      | inr (y, e) ↦ elim (Bool-cases (before y x)) [
        | inl sooner ↦ inr (ground arith)
        | inr later ↦ inl (ground arith)
      ]
    ]
  ]

  module _ {μ} {K : Type μ} ⦃e : Eq K⦄ (key : A → K) where
    -- The chosen row is the only one with its key.
    pub earliest-Keyed {κ} :
        {B : Type κ} (value : A → B) (test : A → Bool) (ds : List A) (d : A)
        → Keyed key ds
        → earliest test ds ≡ some d
        → All (λ x. key x ≡ key d → value x ≡ value d) ds
    unfolding earliest
    earliest-Keyed value test [] d k h = tt
    earliest-Keyed value test (x ∷ ds) d (a, k) h = elim (earliest-split test x ds d h) [
      | inl same ↦
          (λ _. ap value same, All-map _ _ ds (λ y ne e. absurd (ne (e ∙ ap key (sym same)))) a)
      | inr found ↦
          let elsewhere = earliest-All (λ y. key y ≢ key x) test ds d a found in
          (λ e. absurd (elsewhere (sym e)), earliest-Keyed value test ds d k found)
    ]

    pub earliest-count :
        (test : A → Bool) (ds : List A) (d : A)
        → earliest test ds ≡ some d
        → 1 ≤ count_where (λ r. key r == key d) ds
    unfolding earliest
    earliest-count test [] d h = let no : ⊥ = ground arith in absurd no
    earliest-count test (x ∷ ds) d h = elim (earliest-split test x ds d h) [
      | inl same ↦ let key_same : key x ≡ key d = ap key same in ground arith
      | inr found ↦ ground (arith, earliest-count test ds d found)
    ]
