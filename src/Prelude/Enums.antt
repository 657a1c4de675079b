-- ===== src/Prelude/Enums.antt =====
-- Enumerations compared by identity: each member has a number of its own.
use Prim.Native.Nat.{ℕ}
use Prim.Native.String.{String}
use mathlib.Core.Path.{◌≡◌, ap}
use mathlib.Core.Logic.{◌↔◌}
use mathlib.Core.Bool.{Bool, true, false, ◌||◌}
use mathlib.Core.List.{List, [], ◌∷◌}
use text.Mathlib.Text.{◌==◌ as str_eq}
use text.Mathlib.TextEquality.{eq_iff}
use kontur.Prelude.Tests.{nat_eq, nat_eq_iff}

infix 50 ◌==◌
-- A test for equality that is right.
pub record Eq {ℓ} (A : Type ℓ) : Type ℓ where
  pub equals : A → A → Bool
  pub equals_iff : (x y : A) → (equals x y ≡ true) ↔ (x ≡ y)

-- `x == y`
abbrev pub ◌==◌ {ℓ} : {A : Type ℓ} ⦃eq : Eq A⦄ → A → A → Bool
◌==◌ ⦃eq⦄ = eq.equals

instance abbrev pub String_eq : Eq String
String_eq = record { equals = str_eq; equals_iff = eq_iff }

instance abbrev pub ℕ_eq : Eq ℕ
ℕ_eq = record { equals = nat_eq; equals_iff = nat_eq_iff }

-- `x in xs`
abbrev pub elem {ℓ} : {A : Type ℓ} ⦃e : Eq A⦄ → A → List A → Bool
elem a [] = false
elem a (x ∷ xs) = a == x || elem a xs

-- An enumeration by its members' numbers.
pub by_number_iff {ℓ} :
    {A : Type ℓ} (number : A → ℕ)
    → ((a b : A) → number a ≡ number b → a ≡ b)
    → (a b : A) → (nat_eq (number a) (number b) ≡ true) ↔ (a ≡ b)
by_number_iff number injective a b = (
  λ h. injective a b ((nat_eq_iff (number a) (number b)).0 h),
  λ h. (nat_eq_iff (number a) (number b)).1 (ap number h),
)
