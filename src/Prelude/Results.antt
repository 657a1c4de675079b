-- ===== src/Prelude/Results.antt =====
-- Python functions that return or raise: an exception is a value of the error type `E`.
use mathlib.Core.Logic.{◌⊎◌, inl, inr}
use mathlib.Core.Path.{◌≡◌, refl}
use mathlib.Core.Bool.{Bool, true, false, ◌&&◌}
use mathlib.Core.Option.{Option, none, some}
use mathlib.Core.List.{List, [], ◌∷◌, map}
use kontur.Prelude.Lists.{all}

pub data Result {ℓ κ} (E : Type ℓ) (A : Type κ) : Type (ℓ ⊔ κ) where
  ok : A → Result E A
  err : E → Result E A

infixl 5 ◌>>=◌ ◌>>◌
abbrev pub ◌>>=◌ {ℓ κ μ} :
    {E : Type ℓ} {A : Type κ} {B : Type μ} → Result E A → (A → Result E B) → Result E B
ok a >>= f = f a
err e >>= f = err e

abbrev pub ◌>>◌ {ℓ μ} : {E : Type ℓ} {B : Type μ} → Result E (Unit {0}) → Result E B → Result E B
m >> k = m >>= λ _. k

-- `if c: raise e`
abbrev pub raise_if {ℓ} : {E : Type ℓ} → Bool → E → Result E (Unit {0})
raise_if true e = err e
raise_if false e = ok tt

abbrev pub is_ok {ℓ κ} : {E : Type ℓ} {A : Type κ} → Result E A → Bool
is_ok (ok _) = true
is_ok (err _) = false

-- What was returned, if anything was.
abbrev pub returned {ℓ κ} : {E : Type ℓ} {A : Type κ} → Result E A → Option A
returned (ok a) = some a
returned (err _) = none

-- Inversion of a successful bind.
pub >>=-eq-ok {ℓ κ μ} :
    {E : Type ℓ} {A : Type κ} {B : Type μ} (r : Result E A) (rest : A → Result E B) {end : B}
    → (r >>= rest) ≡ ok end
    → (got : A) × (r ≡ ok got) × (rest got ≡ ok end)
>>=-eq-ok (ok got) rest h = (got, refl, h)
>>=-eq-ok (err _) rest h = cc

-- `x = o`, or the exception if it is `None`.
abbrev pub or_raise {ℓ κ} : {E : Type ℓ} {A : Type κ} → Option A → E → Result E A
or_raise none e = err e
or_raise (some a) e = ok a

-- An exception of a callee, as one of the caller's.
abbrev pub raised_as {ℓ κ μ} :
    {E : Type ℓ} {E' : Type κ} {A : Type μ} → (E → E') → Result E A → Result E' A
raised_as f (ok a) = ok a
raised_as f (err e) = err (f e)

-- `[f(x) for x in xs]`, where `f` may raise: the first exception ends it.
unfoldable pub traverse {ℓ κ μ} :
    {E : Type ℓ} {A : Type κ} {B : Type μ} → (A → Result E B) → List A → Result E (List B)
traverse f [] = ok []
traverse f (x ∷ xs) = do y ← f x; ys ← traverse f xs; ok (y ∷ ys)

module _ {ℓ κ μ} {E : Type ℓ} {A : Type κ} {B : Type μ} where
  -- A traversal succeeds exactly when every call does.
  pub is_ok-traverse :
      (f : A → Result E B) (xs : List A) → is_ok (traverse f xs) ≡ all (λ x. is_ok (f x)) xs
  unfolding traverse
  is_ok-traverse f [] = refl
  is_ok-traverse f (x ∷ xs) = is_ok_step (f x) (traverse f xs) (is_ok-traverse f xs)
    where
      is_ok_step :
          (r : Result E B) (rs : Result E (List B)) {b : Bool}
          → is_ok rs ≡ b
          → is_ok (r >>= λ y. rs >>= λ ys. ok (y ∷ ys)) ≡ (is_ok r && b)
      is_ok_step (ok y) (ok ys) e = e
      is_ok_step (ok y) (err q) e = e
      is_ok_step (err q) rs e = refl

  -- What a successful traversal returns, if each call returns the value of `g`.
  pub traverse-eq-map :
      (f : A → Result E B) (g : A → B)
      → ((x : A) (y : B) → f x ≡ ok y → y ≡ g x)
      → (xs : List A) {ys : List B} → traverse f xs ≡ ok ys
      → ys ≡ map g xs
  unfolding traverse
  traverse-eq-map f g each [] h = cc
  traverse-eq-map f g each (x ∷ xs) h =
      let (y, ey, h') = >>=-eq-ok (f x) (λ y. traverse f xs >>= λ ys. ok (y ∷ ys)) h in
      let (zs, ezs, h'') = >>=-eq-ok (traverse f xs) (λ ys. ok (y ∷ ys)) h' in
      cc (each x y ey, traverse-eq-map f g each xs ezs)

pub Result-cases {ℓ κ} :
    {E : Type ℓ} {A : Type κ} (r : Result E A) → ((a : A) × (r ≡ ok a)) ⊎ ((e : E) × (r ≡ err e))
Result-cases (ok a) = inl (a, refl)
Result-cases (err e) = inr (e, refl)
