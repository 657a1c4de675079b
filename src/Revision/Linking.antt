-- ===== src/Revision/Linking.antt =====
-- Linking documents keeps the forest, so that the fuel of every search is enough.
use kontur.Prelude.{
  ℕ, suc, ◌≤◌, ◌<◌, max, ◌≡◌, refl, ap, ◌∙◌, inl, inr, true, false, some, is_some, String, eq_iff,
  ◌==◌, if◌then◌else◌, Bool-cases, arith,
}
use kontur.Prelude.{String_eq}
use kontur.Prelude.Dict.{lookup, insert, lookup-insert}
use kontur.Revision.Blanks.{Parents, find_root, union_roots, joined, linked_roots}
use kontur.Revision.Forest.{IsForest, find_root-IsFound, insert-IsForest, key_of}

-- The heights, with one key raised.
abbrev raised : (String → ℕ) → String → ℕ → String → ℕ
raised h l n x = if x == l then max (h x) n else h x

raised-IsForest :
    (h : String → ℕ) (b : ℕ) (parent : Parents) (l : String) (n : ℕ)
    → IsForest h b parent
    → lookup l parent ≡ some l
    → n ≤ suc b
    → IsForest (raised h l n) (suc b) parent
raised-IsForest h b parent l n forest is_root low x y e =
    let (rises, closed, bounded) = forest x y e in
    elim (Bool-cases (x == l)) [
      | inl here ↦
          let at_l : x ≡ l = (eq_iff x l).0 here in
          let at_root : lookup x parent ≡ some x = rw at_l is_root in
          let same : y ≡ x = ground (arith, e, at_root) in
          (inl same, closed, ground (arith, here, low, bounded))
      | inr other ↦ (
        elim rises [ inl same ↦ inl same | inr up ↦ inr (ground (arith, other, up)) ],
        closed,
        ground (arith, other, bounded),
      )
    ]

linked-IsForest :
    (h : String → ℕ) (b : ℕ) (parent : Parents) (l r : String)
    → IsForest h b parent
    → lookup l parent ≡ some l
    → lookup r parent ≡ some r
    → (l == r) ≡ false
    → IsForest (raised h l (suc (h r))) (suc b) (insert r l parent)
linked-IsForest h b parent l r forest at_l at_r differ =
    let low : h r ≤ b = (forest r r at_r).2 in
    let not_l : (r == l) ≡ false = ground (arith, differ, eq_iff l r, eq_iff r l) in
    let itself : (l == l) ≡ true = (eq_iff l l).1 refl in
    insert-IsForest (raised h l (suc (h r))) (suc b) parent r l
      (raised-IsForest h b parent l (suc (h r)) forest at_l (omega (arith, low)))
      (inr (ground (arith, not_l, itself))) (ap is_some at_l) (ground (arith, not_l, low))

pub weaken-IsForest :
    (h : String → ℕ) (b b' : ℕ) (parent : Parents)
    → b ≤ b'
    → IsForest h b parent
    → IsForest h b' parent
weaken-IsForest h b b' parent le forest x y e =
    let (rises, closed, bounded) = forest x y e in (rises, closed, omega (arith, le, bounded))

-- A forest with the keys of another.
abbrev pub IsGrown : ℕ → Parents → Parents → Type 0
IsGrown b before after =
    (h : String → ℕ) × IsForest h b after
    × ((x : String) → is_some (lookup x after) ≡ is_some (lookup x before))

keys_of_insert :
    (r l x : String) (parent : Parents)
    → lookup r parent ≡ some r
    → is_some (lookup x (insert r l parent)) ≡ is_some (lookup x parent)
keys_of_insert r l x parent at_r = ground (arith, lookup-insert r x l parent, eq_iff r x, at_r)

pub union_roots-IsGrown :
    (h : String → ℕ) (b fuel : ℕ) (parent : Parents) (left right : String)
    → IsForest h b parent
    → is_some (lookup left parent) ≡ true
    → is_some (lookup right parent) ≡ true
    → b < fuel
    → IsGrown (suc b) parent (union_roots fuel parent left right)
      × ((fuel' : ℕ)
          → fuel ≤ fuel'
          → union_roots fuel' parent left right ≡ union_roots fuel parent left right)
unfolding union_roots
union_roots-IsGrown h b fuel parent left right forest there there' low =
    let (p, at_left) = key_of left parent there in
    let ((forest1, at_root1, roots1, keys1), stable1) =
      find_root-IsFound h b fuel parent left p forest at_left (omega (arith, low)) in
    let (l, parent1) = find_root fuel parent left in
    let (q, at_right) = key_of right parent1 (keys1 right ∙ there') in
    let ((forest2, at_root2, roots2, keys2), stable2) =
      find_root-IsFound h b fuel parent1 right q forest1 at_right (omega (arith, low)) in
    let (r, parent2) = find_root fuel parent1 right in
    (
      elim (Bool-cases (l == r)) [
        | inl same ↦
            rw same
              (h, weaken-IsForest h b (suc b) parent2 (omega arith) forest2, λ x. keys2 x ∙ keys1 x)
        | inr differ ↦ rw differ (
          raised h l (suc (h r)),
          linked-IsForest h b parent2 l r forest2 (roots2 l at_root1) at_root2 differ,
          λ x. keys_of_insert r l x parent2 at_root2 ∙ keys2 x ∙ keys1 x,
        )
      ],
      λ fuel' more.
          ap (joined fuel' right) (stable1 fuel' more) ∙ ap (linked_roots l) (stable2 fuel' more),
    )
