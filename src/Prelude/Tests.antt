-- ===== src/Prelude/Tests.antt =====
-- Boolean tests on numbers and texts, and the case splits that keep an equation.
use Prim.Native.Nat.{ℕ, ◌≤◌, ◌<◌, compare, Ordering}
use Prim.Native.String.{String}
use mathlib.Core.Path.{◌≡◌, refl}
use mathlib.Core.Logic.{◌⊎◌, inl, inr, ◌≢◌}
use mathlib.Core.Bool.{Bool, true, false}
use mathlib.Core.Option.{Option, none, some}
use native.Mathlib.Omega.{arith}
unfoldable pub use native.Mathlib.Decide.{ℕ_discrete}
use text.Mathlib.Text.{◌==◌ as text_test}
use text.Mathlib.TextEquality.{eq_iff}

abbrev pub ltb : ℕ → ℕ → Bool
ltb a b = elim (compare a b) [ Ordering.lt ↦ true | _ ↦ false ]

abbrev pub leb : ℕ → ℕ → Bool
leb a b = elim (compare a b) [ Ordering.gt ↦ false | _ ↦ true ]

infix 1 if◌then◌else◌
abbrev pub if◌then◌else◌ {ℓ} : {A : Type ℓ} → Bool → A → A → A
if true then x else y = x
if false then x else y = y

pub Bool-cases : (b : Bool) → (b ≡ true) ⊎ (b ≡ false)
Bool-cases true = inl refl
Bool-cases false = inr refl

-- A property of both branches is one of the `if`.
pub if_case {ℓ κ} :
    {A : Type ℓ} (P : A → Type κ) (b : Bool) {x y : A}
    → (b ≡ true → P x)
    → (b ≡ false → P y)
    → P (if b then x else y)
if_case P true f g = f refl
if_case P false f g = g refl

pub Option-cases {ℓ} : {A : Type ℓ} (o : Option A) → (o ≡ none) ⊎ ((a : A) × (o ≡ some a))
Option-cases none = inl refl
Option-cases (some a) = inr (a, refl)

String-Dec : (s t : String) (b : Bool) → text_test s t ≡ b → Dec (s ≡ t)
String-Dec s t true h = yes ((eq_iff s t).0 h)
String-Dec s t false h = no (λ e. differ ((eq_iff s t).1 e))
  where
    differ : text_test s t ≡ true → ⊥
    differ k = cc

-- Equality of texts is decided.
unfoldable pub String-discrete : Discrete String
unfolding String-Dec
String-discrete s t = String-Dec s t (text_test s t) refl

-- Two texts that the test tells apart.
pub text_ne : (s t : String) → text_test s t ≡ false → s ≢ t
text_ne s t h e = differ ((eq_iff s t).1 e)
  where
    differ : text_test s t ≡ true → ⊥
    differ k = cc

-- A type whose equality the program tests.
pub record Eq {ℓ} (A : Type ℓ) : Type ℓ where
  pub decide : Discrete A

-- The test goes through the decision, so that the tactics read its outcome.
infix 50 ◌==◌
abbrev pub ◌==◌ {ℓ} : {A : Type ℓ} ⦃e : Eq A⦄ → A → A → Bool
◌==◌ ⦃e⦄ a b = elim (e.decide a b) [ yes _ ↦ true | no _ ↦ false ]

instance abbrev pub nat_eq : Eq ℕ
nat_eq = record { decide = ℕ_discrete }

instance abbrev pub text_eq : Eq String
text_eq = record { decide = String-discrete }

pub ltb→lt : (a b : ℕ) → ltb a b ≡ true → a < b
ltb→lt a b h = ground arith

pub ltb→ge : (a b : ℕ) → ltb a b ≡ false → b ≤ a
ltb→ge a b h = ground arith
