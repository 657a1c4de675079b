-- ===== src/Prelude/Lists.antt =====
-- Lists measured by native numbers, and searched by Boolean tests.
use Prim.Native.Nat.{ℕ, zero, suc, ◌+◌, ◌≤◌}
use mathlib.Core.Path.{◌≡◌}
use mathlib.Core.Bool.{Bool, true, false, ◌&&◌, ◌||◌}
use mathlib.Core.Option.{Option, none, some}
use mathlib.Core.List.{List, [], ◌∷◌, ◌++◌}
use mathlib.Core.List.{Memᴰ}
use mathlib.Core.Path.{refl, subst}
use mathlib.Core.Logic.{inl, inr}
use native.Mathlib.Omega.{arith}
use kontur.Prelude.Tests.{Bool-cases, if◌then◌else◌}

module _ {ℓ} {A : Type ℓ} where
  abbrev pub length : List A → ℕ
  length [] = 0
  length (x ∷ xs) = suc (length xs)

  abbrev pub get_elem? : List A → ℕ → Option A
  get_elem? [] i = none
  get_elem? (x ∷ xs) zero = some x
  get_elem? (x ∷ xs) (suc i) = get_elem? xs i

  -- `not xs`
  abbrev pub is_empty : List A → Bool
  is_empty [] = true
  is_empty (_ ∷ _) = false

  -- `any(p(x) for x in xs)` and `all(p(x) for x in xs)`
  abbrev pub any : (A → Bool) → List A → Bool
  any p [] = false
  any p (x ∷ xs) = p x || any p xs

  abbrev pub all : (A → Bool) → List A → Bool
  all p [] = true
  all p (x ∷ xs) = p x && all p xs

  -- `[x for x in xs if p(x)]`
  abbrev pub select : (A → Bool) → List A → List A
  select p [] = []
  select p (x ∷ xs) = if p x then x ∷ select p xs else select p xs

  -- `next((x for x in xs if p(x)), None)`
  abbrev pub find : (A → Bool) → List A → Option A
  find p [] = none
  find p (x ∷ xs) = if p x then some x else find p xs

-- A predicate by recursion computes to tuples, which the tactics read and build.
abbrev pub All {ℓ κ} : {A : Type ℓ} → (A → Type κ) → List A → Type κ
All P [] = Unit
All P (x ∷ xs) = P x × All P xs

module _ {ℓ} {A : Type ℓ} where
  pub length-append : (xs ys : List A) → length (xs ++ ys) ≡ length xs + length ys
  length-append [] ys = omega arith
  length-append (x ∷ xs) ys = omega (arith, length-append xs ys)

  pub length-select-le : (p : A → Bool) (xs : List A) → length (select p xs) ≤ length xs
  length-select-le p [] = omega arith
  length-select-le p (x ∷ xs) = ground (arith, length-select-le p xs)

  -- What passes the test is what the selection holds.
  pub All-select : (p : A → Bool) (xs : List A) → All (λ x. p x ≡ true) (select p xs)
  All-select p [] = tt
  All-select p (x ∷ xs) = ground (arith, All-select p xs)

module _ {ℓ κ} {A : Type ℓ} (P : A → Type κ) where
  pub All-of-select : (p : A → Bool) (xs : List A) → All P xs → All P (select p xs)
  All-of-select p [] h = tt
  All-of-select p (x ∷ xs) h =
      elim (p x) as (λ b. All P (if b then x ∷ select p xs else select p xs)) [
        | true ↦ (h.0, All-of-select p xs h.1)
        | false ↦ All-of-select p xs h.1
      ]

  pub All-find : (p : A → Bool) (xs : List A) {x : A} → All P xs → find p xs ≡ some x → P x
  All-find p [] h e = cc
  All-find p (y ∷ ys) {x} h e = elim (Bool-cases (p y)) [
    | inl here ↦ let same : y ≡ x = ground (arith, e, here) in subst P same h.0
    | inr there ↦ let rest : find p ys ≡ some x = ground (arith, e, there) in All-find p ys h.1 rest
  ]

  pub All-both {μ} : (Q : A → Type μ) (xs : List A) → All P xs → All Q xs → All (λ x. P x × Q x) xs
  All-both Q [] h h' = tt
  All-both Q (x ∷ xs) h h' = ((h.0, h'.0), All-both Q xs h.1 h'.1)

  pub All-imp {μ} : {Q : A → Type μ} → ((x : A) → P x → Q x) → (xs : List A) → All P xs → All Q xs
  All-imp f [] h = tt
  All-imp f (x ∷ xs) h = (f x h.0, All-imp f xs h.1)

  -- What holds of every member holds of all.
  pub All-of_members : (xs : List A) → ((x : A) → Memᴰ x xs → P x) → All P xs
  All-of_members [] each = tt
  All-of_members (x ∷ xs) each =
      (each x (Memᴰ.head refl), All-of_members xs (λ y m. each y (Memᴰ.tail m)))

pub All-append {ℓ κ} :
    {A : Type ℓ} (P : A → Type κ) (front back : List A)
    → All P front
    → All P back
    → All P (front ++ back)
All-append P [] back h h' = h'
All-append P (a ∷ front) back (one, h) h' = (one, All-append P front back h h')
