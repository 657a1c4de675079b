-- ===== src/Revision/Forest.antt =====
-- The union-find structure of `_blank_components` is a forest, so that each search for a root ends.
use kontur.Prelude.{
  ℕ, zero, suc, ◌+◌, ◌≤◌, ◌<◌, ◌≡◌, refl, sym, ap, ◌∙◌, ◌⊎◌, inl, inr, true, false, some, is_some,
  String, eq_iff, ◌==◌, Bool-cases, Option-cases, arith,
}
use kontur.Prelude.{String_eq}
use mathlib.Core.Path.{subst}
use kontur.Prelude.Dict.{lookup, insert, lookup-insert}
use kontur.Revision.Blanks.{Parents, find_root}

-- A parent that is another identifier is higher; parents are keys; no key is higher than the bound.
abbrev pub IsForest : (String → ℕ) → ℕ → Parents → Type 0
IsForest h b parent =
    (id p : String)
    → lookup id parent ≡ some p
    → ((p ≡ id) ⊎ (h id < h p)) × (is_some (lookup p parent) ≡ true) × (h id ≤ b)

predecessor : (n m : ℕ) → suc n ≤ m → (k : ℕ) × (m ≡ suc k) × (n ≤ k)
predecessor n zero h = absurd (omega (arith, h))
predecessor n (suc k) h = (k, refl, omega (arith, h))

pub key_of :
    (id : String) (parent : Parents)
    → is_some (lookup id parent) ≡ true
    → (p : String) × (lookup id parent ≡ some p)
key_of id parent e = elim (Option-cases (lookup id parent)) [
  | inl missing ↦ absurd (ground (arith, e, missing))
  | inr found ↦ found
]

has_key-insert :
    (parent : Parents) (id q x : String)
    → is_some (lookup x parent) ≡ true
    → is_some (lookup x (insert id q parent)) ≡ true
has_key-insert parent id q x e = ground (arith, lookup-insert id x q parent, e)

-- A new parent that is a key, and higher, keeps a forest.
pub insert-IsForest :
    (h : String → ℕ) (b : ℕ) (parent : Parents) (id q : String)
    → IsForest h b parent
    → (q ≡ id) ⊎ (h id < h q)
    → is_some (lookup q parent) ≡ true
    → h id ≤ b
    → IsForest h b (insert id q parent)
insert-IsForest h b parent id q forest higher there low x y e = elim (Bool-cases (id == x)) [
  | inl here ↦
      let at_x : id ≡ x = (eq_iff id x).0 here in
      let at_y : q ≡ y = ground (arith, lookup-insert id x q parent, here, e) in
      rw (sym at_x, sym at_y) (higher, has_key-insert parent id q q there, low)
  | inr there' ↦
      let at_x : lookup x parent ≡ some y =
        ground (arith, lookup-insert id x q parent, there', e) in
      let (rises, closed, bounded) = forest x y at_x in
      (rises, has_key-insert parent id q y closed, bounded)
]

-- Giving a key that has another parent its parent's parent keeps the forest.
halved-IsForest :
    (h : String → ℕ) (b : ℕ) (parent : Parents) (id p q : String)
    → IsForest h b parent
    → lookup id parent ≡ some p
    → (p == id) ≡ false
    → lookup p parent ≡ some q
    → IsForest h b (insert id q parent) × (h id < h q)
halved-IsForest h b parent id p q forest at_id other at_p =
    let (rises, closed, bounded) = forest id p at_id in
    let (rises', closed', bounded') = forest p q at_p in
    let above : h id < h p = elim rises [
      | inl same ↦ absurd (ground (arith, eq_iff p id, same, other))
      | inr up ↦ up
    ] in
    let higher : h id < h q = elim rises' [
      | inl same ↦ rw same above
      | inr up ↦ omega (arith, above, up)
    ] in
    (insert-IsForest h b parent id q forest (inr higher) closed' bounded, higher)

keeps_root :
    (parent : Parents) (id p q r : String)
    → lookup id parent ≡ some p
    → (p == id) ≡ false
    → lookup r parent ≡ some r
    → lookup r (insert id q parent) ≡ some r
keeps_root parent id p q r at_id other at_r =
    ground (arith, lookup-insert id r q parent, eq_iff id r, eq_iff p id, at_id, other, at_r)

keeps_keys :
    (parent : Parents) (id p q x : String)
    → lookup id parent ≡ some p
    → is_some (lookup x (insert id q parent)) ≡ is_some (lookup x parent)
keeps_keys parent id p q x at_id = ground (arith, lookup-insert id x q parent, eq_iff id x, at_id)

-- What a search that reaches a root leaves: the forest, its roots and its keys.
abbrev pub IsFound : (String → ℕ) → ℕ → Parents → String × Parents → Type 0
IsFound h b parent (root, parent') =
    IsForest h b parent'
    × (lookup root parent' ≡ some root)
    × ((r : String) → lookup r parent ≡ some r → lookup r parent' ≡ some r)
    × ((x : String) → is_some (lookup x parent') ≡ is_some (lookup x parent))

find_root_here :
    (fuel : ℕ) (parent : Parents) (id p : String)
    → lookup id parent ≡ some p
    → (p == id) ≡ true
    → find_root (suc fuel) parent id ≡ (id, parent)
unfolding find_root
find_root_here fuel parent id p at_id here = rw (at_id, here) refl

find_root_up :
    (fuel : ℕ) (parent : Parents) (id p q : String)
    → lookup id parent ≡ some p
    → (p == id) ≡ false
    → lookup p parent ≡ some q
    → find_root (suc fuel) parent id ≡ find_root fuel (insert id q parent) q
unfolding find_root
find_root_up fuel parent id p q at_id other at_p = rw (at_id, other, at_p) refl

pub find_root-IsFound :
    (h : String → ℕ) (b fuel : ℕ) (parent : Parents) (id p : String)
    → IsForest h b parent
    → lookup id parent ≡ some p
    → b < fuel + h id
    → IsFound h b parent (find_root fuel parent id)
      × ((fuel' : ℕ) → fuel ≤ fuel' → find_root fuel' parent id ≡ find_root fuel parent id)
find_root-IsFound h b zero parent id p forest at_id enough_fuel =
    let (rises, closed, bounded) = forest id p at_id in absurd (omega (arith, enough_fuel, bounded))
find_root-IsFound h b (suc fuel) parent id p forest at_id enough_fuel =
    elim (Bool-cases (p == id)) [
      | inl here ↦
          let at_root : lookup id parent ≡ some id = at_id ∙ ap some ((eq_iff p id).0 here) in
          let found = find_root_here fuel parent id p at_id here in
          (
            subst (IsFound h b parent) (sym found) (forest, at_root, λ r e. e, λ x. refl),
            λ fuel' more.
                let (n, same, le) = predecessor fuel fuel' more in
                rw same (find_root_here n parent id p at_id here ∙ sym found),
          )
      | inr other ↦
          let (q, at_p) = key_of p parent (forest id p at_id).1 in
          let (forest', higher) = halved-IsForest h b parent id p q forest at_id other at_p in
          let (r, at_q) =
            key_of q (insert id q parent) (has_key-insert parent id q q (forest p q at_p).1) in
          let ((still, is_root, roots, same_keys), stable) =
            find_root-IsFound h b fuel (insert id q parent) q r forest' at_q
              (omega (arith, enough_fuel, higher)) in
          let up = find_root_up fuel parent id p q at_id other at_p in
          (
            subst (IsFound h b parent) (sym up) (
              still,
              is_root,
              λ r e. roots r (keeps_root parent id p q r at_id other e),
              λ x. same_keys x ∙ keeps_keys parent id p q x at_id,
            ),
            λ fuel' more.
                let (n, same, le) = predecessor fuel fuel' more in
                rw same (find_root_up n parent id p q at_id other at_p ∙ stable n le ∙ sym up),
          )
    ]
