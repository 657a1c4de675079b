-- ===== src/Prelude/Json.antt =====
-- JSON values as the code handles them: a dictionary is a list of fields in insertion order.
use Prim.Native.Nat.{ℕ, suc}
use Prim.Native.String.{String}
use mathlib.Core.Path.{◌≡◌, refl, sym, ap, ◌∙◌}
use mathlib.Core.Logic.{inl, inr}
use mathlib.Core.Bool.{Bool, false}
use mathlib.Core.Option.{Option, none, some}
use mathlib.Core.List.{List, [], ◌∷◌}
use native.Mathlib.Omega.{arith}
use package.text.Mathlib.TextEquality.{eq_iff}
use kontur.Prelude.Tests.{if◌then◌else◌, Bool-cases}
use kontur.Prelude.Enums.{◌==◌, String_eq}

mutual
  pub data Json (Float : Type 0) : Type 0 where
    null : Json Float
    bool : Bool → Json Float
    int : ℕ → Json Float
    negative : ℕ → Json Float
    float : Float → Json Float
    text : String → Json Float
    arr : Items Float → Json Float
    obj : Fields Float → Json Float

  pub data Items (Float : Type 0) : Type 0 where
    nil : Items Float
    cons : Json Float → Items Float → Items Float

  pub data Fields (Float : Type 0) : Type 0 where
    end : Fields Float
    field : String → Json Float → Fields Float → Fields Float

module _ {Float : Type 0} where
  -- `list(...)` of JSON values
  abbrev pub items : List (Json Float) → Items Float
  items [] = nil
  items (x ∷ xs) = cons x (items xs)

  abbrev pub values : Items Float → List (Json Float)
  values nil = []
  values (cons x xs) = x ∷ values xs

  abbrev pub count_items : Items Float → ℕ
  count_items nil = 0
  count_items (cons x xs) = suc (count_items xs)

  -- `d.get(k)`
  unfoldable pub get : String → Fields Float → Option (Json Float)
  get k end = none
  get k (field j v d) = if j == k then some v else get k d

  -- `d[k] = v`
  unfoldable pub put : String → Json Float → Fields Float → Fields Float
  put k v end = field k v end
  put k v (field j w d) = if j == k then field j v d else field j w (put k v d)

  -- `d.pop(k, None)`
  unfoldable pub pop : String → Fields Float → Fields Float
  pop k end = end
  pop k (field j w d) = let rest = pop k d in if j == k then rest else field j w rest

  pub get-put :
      (k j : String) (v : Json Float) (d : Fields Float)
      → get j (put k v d) ≡ (if k == j then some v else get j d)
  unfolding get put
  get-put k j v end = refl
  get-put k j v (field i w d) = ground (arith, eq_iff k j, eq_iff i k, eq_iff i j, get-put k j v d)

  pub get-pop_ne : (k j : String) (d : Fields Float) → (k == j) ≡ false → get j (pop k d) ≡ get j d
  unfolding get pop
  get-pop_ne k j end h = refl
  get-pop_ne k j (field i w d) h =
      ground (arith, eq_iff i k, eq_iff i j, eq_iff k j, get-pop_ne k j d h)

  pub get-pop_self : (k : String) (d : Fields Float) → get k (pop k d) ≡ none
  unfolding get pop
  get-pop_self k end = refl
  get-pop_self k (field i w d) = ground (arith, get-pop_self k d)

  pub get-pop :
      (k j : String) (d : Fields Float) → get j (pop k d) ≡ (if k == j then none else get j d)
  get-pop k j d = elim (Bool-cases (k == j)) [
    | inl e ↦
        let same : k ≡ j = (eq_iff k j).0 e in
        rw e (ap (λ i. get i (pop k d)) (sym same) ∙ get-pop_self k d)
    | inr e ↦ rw e (get-pop_ne k j d e)
  ]

  -- What is not there is not removed, and what is there as it should be is not changed.
  pub pop_of_absent : (k : String) (d : Fields Float) → get k d ≡ none → pop k d ≡ d
  unfolding get pop
  pop_of_absent k end h = refl
  pop_of_absent k (field i w d) h = ground (arith, pop_of_absent k d)

  pub put_of_present :
      (k : String) (v : Json Float) (d : Fields Float) → get k d ≡ some v → put k v d ≡ d
  unfolding get put
  put_of_present k v end h = cc
  put_of_present k v (field i w d) h = ground (arith, put_of_present k v d)
