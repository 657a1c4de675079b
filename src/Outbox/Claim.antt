-- ===== src/Outbox/Claim.antt =====
-- Which row a claim takes, and what it does to the others.
use kontur.Prelude.{◌⊎◌}
use kontur.Prelude.{
  ℕ, suc, ◌+◌, ◌≤◌, ◌≡◌, refl, ◌⊎◌, inl, inr, Bool, true, false, not, some, is_some, List, [], ◌∷◌,
  is_empty, any, select, All, All-select, All-of-select, ◌==◌, if◌then◌else◌, Bool-cases, arith,
}
use kontur.Prelude.{String_eq, ℕ_eq}
use kontur.Outbox.{
  delivering, OutboxItem, OutboxRow, Outbox, row_from_mapping, is_eligible, comes_first,
  insert_in_order, sorted, change_first, leased, claim_memory,
}
use mathlib.Core.Path.{subst}
use kontur.Outbox.Rows.{
  IsKeyed, IsFound, IsFound-by_key, budget, AllKept, keys, change_first-AllKept,
  budget-change_first, keys-change_first,
}

-- No row of the list is available before the moment.
abbrev From : ℕ → List OutboxItem → Type 0
From t = All (λ j. t ≤ j.available_at)

From-weaken : (s t : ℕ) (is : List OutboxItem) → s ≤ t → From t is → From s is
From-weaken s t [] h hs = tt
From-weaken s t (i ∷ is) h hs = (omega (arith, h, hs.0), From-weaken s t is h hs.1)

module _ {ℓ} (P : OutboxItem → Type ℓ) where
  All-insert_in_order :
      (i : OutboxItem) (js : List OutboxItem) → P i → All P js → All P (insert_in_order i js)
  All-insert_in_order i [] h hs = (h, tt)
  All-insert_in_order i (j ∷ js) h hs =
      elim (comes_first i j) as (λ b. All P (if b then i ∷ j ∷ js else j ∷ insert_in_order i js)) [
        | true ↦ (h, hs)
        | false ↦ (hs.0, All-insert_in_order i js h hs.1)
      ]

  All-sorted : (is : List OutboxItem) → All P is → All P (sorted is)
  All-sorted [] h = tt
  All-sorted (i ∷ is) h = All-insert_in_order i (sorted is) h.0 (All-sorted is h.1)

-- The first row of the one list is no later than any row of the other.
abbrev Leads : List OutboxItem → List OutboxItem → Type 0
Leads [] is = is ≡ []
Leads (k ∷ _) is = From k.available_at is

insert_in_order-Leads :
    (j : OutboxItem) (js ks : List OutboxItem) → Leads ks js → Leads (insert_in_order j ks) (j ∷ js)
unfolding comes_first
insert_in_order-Leads j js [] h = rw h (omega arith, tt)
insert_in_order-Leads j js (k ∷ ks) h = elim (Bool-cases (comes_first j k)) [
  | inl e ↦ rw e (omega arith, From-weaken j.available_at k.available_at js (ground (arith, e)) h)
  | inr e ↦ rw e (ground (arith, e), h)
]

sorted-Leads : (is : List OutboxItem) → Leads (sorted is) is
sorted-Leads [] = refl
sorted-Leads (j ∷ js) = insert_in_order-Leads j js (sorted js) (sorted-Leads js)

eligible-From :
    (p : OutboxItem → Bool) (t : ℕ) (is : Outbox)
    → From t (select p is)
    → All (λ j. (p j ≡ false) ⊎ (t ≤ j.available_at)) is
eligible-From p t [] h = tt
eligible-From p t (i ∷ is) h =
    (elim (p i)
        as (λ b.
          From t (if b then i ∷ select p is else select p is)
          → ((b ≡ false) ⊎ (t ≤ i.available_at))
            × All (λ j. (p j ≡ false) ⊎ (t ≤ j.available_at)) is) [
              | true ↦ λ h. (inr h.0, eligible-From p t is h.1)
              | false ↦ λ h. (inl refl, eligible-From p t is h)
            ])
      h

list_cases :
    (is : List OutboxItem)
    → (is ≡ []) ⊎ ((i : OutboxItem) × (rest : List OutboxItem) × (is ≡ i ∷ rest))
list_cases [] = inl refl
list_cases (i ∷ is) = inr (i, is, refl)

-- What a claim that succeeds has taken and done.
abbrev pub IsClaim : ℕ → Outbox → OutboxRow → Outbox → OutboxItem → Type 0
IsClaim now outbox row after item =
    IsFound outbox item
    × (is_eligible now item ≡ true)
    × All (λ j. (is_eligible now j ≡ false) ⊎ (item.available_at ≤ j.available_at)) outbox
    × (row
        ≡ row_from_mapping (record item {
          status = delivering;
          attempts = item.attempts + 1;
          available_at = now + 30;
        }))
    × (after
        ≡ change_first (λ i. i.protocol_id == item.protocol_id)
            (λ i. record i {
              status = delivering;
              attempts = i.attempts + 1;
              available_at = now + 30;
            })
            outbox)

-- In an outbox whose keys differ, a claim that succeeds takes a row that is eligible and no later
-- available than any other that is. It counts the try in that row, marks it DELIVERING and makes it
-- unavailable for 30 seconds; no other row is changed.
pub claim_memory_lem :
    (now : ℕ) (outbox : Outbox)
    → IsKeyed outbox
    → {row : OutboxRow} {after : Outbox} → claim_memory now outbox ≡ some (row, after)
    → (item : OutboxItem) × IsClaim now outbox row after item
unfolding claim_memory
claim_memory_lem now outbox keyed {row} {after} h =
    let eligible = select (is_eligible now) outbox in
    elim (list_cases (sorted eligible)) [
      | inl none_left ↦ absurd (ground (arith, h, none_left))
      | inr (item, rest, e) ↦
          let found : All (IsFound outbox) (item ∷ rest) = subst (All (IsFound outbox)) e (
            All-sorted _ eligible
              (All-of-select _ (is_eligible now) outbox (IsFound-by_key outbox keyed))) in
          let is_one : All (λ j. is_eligible now j ≡ true) (item ∷ rest) =
            subst (All (λ j. is_eligible now j ≡ true)) e
              (All-sorted _ eligible (All-select (is_eligible now) outbox)) in
          let first : From item.available_at eligible =
            subst (λ is. Leads is eligible) e (sorted-Leads eligible) in
          (
            item,
            (
              found.0,
              is_one.0,
              eligible-From (is_eligible now) item.available_at outbox first,
              ground (arith, h, e),
              ground (arith, h, e),
            ),
          )
    ]

is_empty-insert_in_order :
    (i : OutboxItem) (is : List OutboxItem) → is_empty (insert_in_order i is) ≡ false
is_empty-insert_in_order i [] = refl
is_empty-insert_in_order i (j ∷ js) = ground arith

is_empty-sorted : (is : List OutboxItem) → is_empty (sorted is) ≡ is_empty is
is_empty-sorted [] = refl
is_empty-sorted (i ∷ is) = is_empty-insert_in_order i (sorted is)

is_empty-select :
    (p : OutboxItem → Bool) (is : List OutboxItem) → not (is_empty (select p is)) ≡ any p is
is_empty-select p [] = refl
is_empty-select p (i ∷ is) = ground (arith, is_empty-select p is)

-- There is a claim exactly if some row is eligible.
pub claim_memory_iff :
    (now : ℕ) (outbox : Outbox) → is_some (claim_memory now outbox) ≡ any (is_eligible now) outbox
unfolding claim_memory
claim_memory_iff now outbox = ground (
  arith,
  is_empty-sorted (select (is_eligible now) outbox),
  is_empty-select (is_eligible now) outbox,
)

-- A claim spends exactly one of the tries that are left, and touches no settled row.
pub claim_memory-spends :
    (now : ℕ) (outbox : Outbox)
    → IsKeyed outbox
    → {row : OutboxRow} {after : Outbox} → claim_memory now outbox ≡ some (row, after)
    → (suc (budget after) ≡ budget outbox) × AllKept outbox after × (keys after ≡ keys outbox)
unfolding is_eligible
claim_memory-spends now outbox keyed {row} {after} h =
    let (item, (found, eligible, least, at_row, at_after)) = claim_memory_lem now outbox keyed h in
    let is_item = λ (i : OutboxItem). i.protocol_id == item.protocol_id in
    rw at_after (
      ground (arith, eligible, budget-change_first is_item (leased now) outbox found),
      change_first-AllKept is_item (leased now) outbox found (refl, inl (ground (arith, eligible))),
      keys-change_first is_item (leased now) outbox (λ i. refl),
    )
