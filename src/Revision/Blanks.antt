-- ===== src/Revision/Blanks.antt =====
-- `_blank_components`: the documents without a code, grouped by their links with a union-find
-- structure. Its `parent` is a dictionary from identifiers to identifiers.
use kontur.Prelude.{
  ℕ, zero, suc, ◌+◌, ◌*◌, Option, none, some, is_some, String, List, [], ◌∷◌, ◌++◌, length, ◌==◌,
  if◌then◌else◌,
}
use kontur.Prelude.{String_eq}
use kontur.Prelude.Dict.{Dict, lookup, insert}
use kontur.Domain.Models.{DocumentRef}

abbrev pub Parents : Type 0
Parents = Dict String

-- `parent[file_id]`; the identifiers that the code asks for are keys.
abbrev pub parent_of : Parents → String → String
parent_of parent file_id = or_self (lookup file_id parent)
  where
    or_self : Option String → String
    or_self none = file_id
    or_self (some p) = p

-- Each turn of the loop spends fuel.
unfoldable pub find_root : ℕ → Parents → String → String × Parents
find_root zero parent file_id = (file_id, parent)
find_root (suc fuel) parent file_id =
    let above = parent_of parent (parent_of parent file_id) in
    let rest = find_root fuel (insert file_id above parent) above in
    if parent_of parent file_id == file_id then (file_id, parent) else rest

abbrev pub linked_roots : String → String × Parents → Parents
linked_roots root_left (root_right, parent) =
    if root_left == root_right then parent else insert root_right root_left parent

abbrev pub joined : ℕ → String → String × Parents → Parents
joined fuel right (root_left, parent) = linked_roots root_left (find_root fuel parent right)

unfoldable pub union_roots : ℕ → Parents → String → String → Parents
unfolding find_root
union_roots fuel parent left right = joined fuel right (find_root fuel parent left)

-- `union` of the code.
unfoldable pub union : ℕ → Parents → String → Option String → Parents
unfolding union_roots
union fuel parent left none = parent
union fuel parent left (some right) =
    if is_some (lookup right parent) then union_roots fuel parent left right else parent

unfoldable pub link_all : ℕ → Parents → List DocumentRef → Parents
unfolding union
link_all fuel parent [] = parent
link_all fuel parent (item ∷ items) =
    link_all fuel
      (union fuel (union fuel parent item.file_id item.predecessor_file_id) item.file_id
        item.successor_file_id)
      items

-- `{item.file_id: item.file_id for item in blanks}`
abbrev pub own_parents : List DocumentRef → Parents → Parents
own_parents [] parent = parent
own_parents (item ∷ items) parent = own_parents items (insert item.file_id item.file_id parent)

-- `components.setdefault(root, []).append(item)`
abbrev pub append_at : String → DocumentRef → Dict (List DocumentRef) → Dict (List DocumentRef)
append_at root item [] = (root, item ∷ []) ∷ []
append_at root item ((key, group) ∷ groups) =
    let rest = append_at root item groups in
    if key == root then (key, group ++ item ∷ []) ∷ groups else (key, group) ∷ rest

unfoldable pub group_all :
    ℕ → Parents → List DocumentRef → Dict (List DocumentRef) → Dict (List DocumentRef)
unfolding find_root
group_all fuel parent [] groups = groups
group_all fuel parent (item ∷ items) groups =
    let (root, parent') = find_root fuel parent item.file_id in
    group_all fuel parent' items (append_at root item groups)

abbrev pub groups_of {ℓ} : {A : Type ℓ} → Dict A → List A
groups_of [] = []
groups_of ((_, group) ∷ groups) = group ∷ groups_of groups

-- No chain of parents is longer than the number of the links and one.
abbrev pub enough : List DocumentRef → ℕ
enough blanks = 2 * length blanks + 1

-- The structure in which all documents are linked_parents.
abbrev pub linked_parents : ℕ → List DocumentRef → Parents
linked_parents fuel blanks = link_all fuel (own_parents blanks []) blanks

abbrev pub components_with : ℕ → List DocumentRef → List (List DocumentRef)
components_with fuel blanks = groups_of (group_all fuel (linked_parents fuel blanks) blanks [])

unfoldable pub blank_components : List DocumentRef → List (List DocumentRef)
unfolding link_all group_all
blank_components blanks = components_with (enough blanks) blanks
