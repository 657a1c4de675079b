-- ===== src/Revision/Enough.antt =====
-- The fuel of `blank_components` is enough.
use kontur.Prelude.{
  ℕ, suc, ◌+◌, ◌*◌, ◌≤◌, ◌<◌, ◌≡◌, refl, sym, ap, ◌∙◌, inl, inr, true, Option, none, some, is_some,
  String, eq_iff, List, [], ◌∷◌, length, All, All-imp, Bool-cases, arith,
}
use kontur.Prelude.{String_eq}
use mathlib.Core.Path.{subst}
use kontur.Prelude.Dict.{Dict, lookup, insert, lookup-insert}
use kontur.Domain.Models.{DocumentRef}
use kontur.Revision.Blanks.{
  Parents, find_root, union, link_all, own_parents, group_all, enough, blank_components,
  components_with, linked_parents, append_at, groups_of,
}
use kontur.Revision.Forest.{IsForest, find_root-IsFound, key_of}
use kontur.Revision.Linking.{IsGrown, union_roots-IsGrown, weaken-IsForest}

union-IsGrown :
    (h : String → ℕ) (b fuel : ℕ) (parent : Parents) (left : String) (right : Option String)
    → IsForest h b parent
    → is_some (lookup left parent) ≡ true
    → b < fuel
    → IsGrown (suc b) parent (union fuel parent left right)
      × ((fuel' : ℕ) → fuel ≤ fuel' → union fuel' parent left right ≡ union fuel parent left right)
unfolding union
union-IsGrown h b fuel parent left none forest there low =
    ((h, weaken-IsForest h b (suc b) parent (omega arith) forest, λ x. refl), λ fuel' more. refl)
union-IsGrown h b fuel parent left (some right) forest there low =
    elim (Bool-cases (is_some (lookup right parent))) [
      | inl e ↦
          let (grown, stable) = union_roots-IsGrown h b fuel parent left right forest there e low in
          (rw e grown, λ fuel' more. rw e (stable fuel' more))
      | inr e ↦ (
        rw e (h, weaken-IsForest h b (suc b) parent (omega arith) forest, λ x. refl),
        λ fuel' more. rw e refl,
      )
    ]

-- The documents' identifiers are keys.
abbrev AllKeys : Parents → List DocumentRef → Type 0
AllKeys parent = All (λ item. is_some (lookup item.file_id parent) ≡ true)

AllKeys-same :
    (parent parent' : Parents) (items : List DocumentRef)
    → ((x : String) → is_some (lookup x parent') ≡ is_some (lookup x parent))
    → AllKeys parent items
    → AllKeys parent' items
AllKeys-same parent parent' items same keys = All-imp _ (λ item e. same item.file_id ∙ e) items keys

link_all-IsGrown :
    (fuel b : ℕ) (h : String → ℕ) (parent : Parents) (items : List DocumentRef)
    → IsForest h b parent
    → AllKeys parent items
    → b + 2 * length items < fuel
    → IsGrown (b + 2 * length items) parent (link_all fuel parent items)
      × ((fuel' : ℕ) → fuel ≤ fuel' → link_all fuel' parent items ≡ link_all fuel parent items)
unfolding link_all
link_all-IsGrown fuel b h parent [] forest keys low = (
  (h, weaken-IsForest h b (b + 2 * 0) parent (omega arith) forest, λ x. refl),
  λ fuel' more. refl,
)
link_all-IsGrown fuel b h parent (item ∷ items) forest keys low =
    let id = item.file_id in
    let ((h1, forest1, same1), stable1) =
      union-IsGrown h b fuel parent id item.predecessor_file_id forest keys.0
        (omega (arith, low)) in
    let parent1 = union fuel parent id item.predecessor_file_id in
    let ((h2, forest2, same2), stable2) =
      union-IsGrown h1 (suc b) fuel parent1 id item.successor_file_id forest1 (same1 id ∙ keys.0)
        (omega (arith, low)) in
    let parent2 = union fuel parent1 id item.successor_file_id in
    let same = λ (x : String). same2 x ∙ same1 x in
    let ((h3, forest3, same3), stable3) =
      link_all-IsGrown fuel (suc (suc b)) h2 parent2 items forest2
        (AllKeys-same parent parent2 items same keys.1) (omega (arith, low)) in
    (
      (
        h3,
        weaken-IsForest h3 (suc (suc b) + 2 * length items) (b + 2 * suc (length items)) _
            (omega arith) forest3,
        λ x. same3 x ∙ same x,
      ),
      λ fuel' more.
          ap (λ q. link_all fuel' (union fuel' q id item.successor_file_id) items)
            (stable1 fuel' more)
          ∙ ap (λ q. link_all fuel' q items) (stable2 fuel' more)
          ∙ stable3 fuel' more,
    )

group_all-stable :
    (fuel b : ℕ) (h : String → ℕ) (parent : Parents) (items : List DocumentRef)
    (groups : Dict (List DocumentRef))
    → IsForest h b parent
    → AllKeys parent items
    → b < fuel
    → (fuel' : ℕ) → fuel ≤ fuel'
    → group_all fuel' parent items groups ≡ group_all fuel parent items groups
unfolding group_all
group_all-stable fuel b h parent [] groups forest keys low fuel' more = refl
group_all-stable fuel b h parent (item ∷ items) groups forest keys low fuel' more =
    let (p, at_item) = key_of item.file_id parent keys.0 in
    let ((forest', is_root, roots, same), stable) =
      find_root-IsFound h b fuel parent item.file_id p forest at_item (omega (arith, low)) in
    let (root, parent') = find_root fuel parent item.file_id in
    ap (λ q. group_all fuel' q.1 items (append_at q.0 item groups)) (stable fuel' more)
    ∙ group_all-stable fuel b h parent' items (append_at root item groups) forest'
        (AllKeys-same parent parent' items same keys.1) low fuel' more

-- Each key is its own parent.
abbrev IsOwn : Parents → Type 0
IsOwn parent = (x p : String) → lookup x parent ≡ some p → p ≡ x

nil-IsOwn : IsOwn []
unfolding lookup
nil-IsOwn x p e = cc

own_parents-lem :
    (items : List DocumentRef) (parent : Parents)
    → IsOwn parent
    → IsOwn (own_parents items parent)
      × ((x : String)
          → is_some (lookup x parent) ≡ true
          → is_some (lookup x (own_parents items parent)) ≡ true)
      × AllKeys (own_parents items parent) items
own_parents-lem [] parent own = (own, λ x e. e, tt)
own_parents-lem (item ∷ items) parent own =
    let id = item.file_id in
    let found = λ (x : String). lookup-insert id x id parent in
    let (own', stays, keys) =
      own_parents-lem items (insert id id parent)
        (λ x p e. ground (arith, found x, own x p, eq_iff id x, e)) in
    (
      own',
      λ x e. stays x (ground (arith, found x, e)),
      (stays id (ground (arith, found id, eq_iff id id)), keys),
    )

-- With the fuel of `blank_components`, or more, the grouping of documents without a code comes out the
-- same, and in the linked_parents structure the search from every document ends at a root: an identifier that
-- is its own parent.
pub fuel_is_enough :
    (blanks : List DocumentRef) (fuel : ℕ)
    → enough blanks ≤ fuel
    → (components_with fuel blanks ≡ blank_components blanks)
      × All
          (λ item.
            lookup
              (find_root fuel (linked_parents fuel blanks) item.file_id).0
              (find_root fuel (linked_parents fuel blanks) item.file_id).1
            ≡ some (find_root fuel (linked_parents fuel blanks) item.file_id).0)
          blanks
unfolding blank_components
fuel_is_enough blanks fuel more =
    let (own, stays, keys) = own_parents-lem blanks [] nil-IsOwn in
    let parent = own_parents blanks [] in
    let flat : IsForest (λ x. 0) 0 parent =
      λ x p e. let same = own x p e in (inl same, rw same (ap is_some e), omega arith) in
    let ((h, forest, same), stable) =
      link_all-IsGrown (enough blanks) 0 (λ x. 0) parent blanks flat keys (omega arith) in
    let linked_keys =
      AllKeys-same parent (linked_parents (enough blanks) blanks) blanks same keys in
    let at_linked : linked_parents fuel blanks ≡ linked_parents (enough blanks) blanks =
      stable fuel more in
    (
      ap (λ q. groups_of (group_all fuel q blanks [])) at_linked
          ∙ ap groups_of (
              group_all-stable (enough blanks) (0 + 2 * length blanks) h
                (linked_parents (enough blanks) blanks) blanks [] forest linked_keys (omega arith)
                fuel more),
      subst
          (λ q.
            All
              (λ item.
                lookup (find_root fuel q item.file_id).0 (find_root fuel q item.file_id).1
                ≡ some (find_root fuel q item.file_id).0)
              blanks)
          (sym at_linked)
          (All-imp _
            (λ item there.
              let (p, at_item) =
                key_of item.file_id (linked_parents (enough blanks) blanks) there in
              (find_root-IsFound h (0 + 2 * length blanks) fuel
                (linked_parents (enough blanks) blanks) item.file_id p forest at_item
                (omega (arith, more))).0.1)
            blanks linked_keys),
    )
