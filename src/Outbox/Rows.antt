-- ===== src/Outbox/Rows.antt =====
-- Rows of an outbox: what changing one of them in place does.
use kontur.Prelude.{◌⊎◌, sym}
use kontur.Prelude.{
  ℕ, ◌+◌, ◌-◌, ◌*◌, ◌≤◌, ◌≡◌, refl, ap, ◌∙◌, inl, inr, Bool, true, false, some, String, eq_iff,
  List, [], ◌∷◌, length, any, find, All, ◌==◌, Bool-cases, arith,
}
use kontur.Prelude.{String_eq, ℕ_eq}
use kontur.Outbox.{OutboxItem, Outbox, is_waiting, change_first, max_attempts}

abbrev pub keys : Outbox → List String
keys [] = []
keys (i ∷ is) = i.protocol_id ∷ keys is

abbrev pub AllDiffer : List String → Type 0
AllDiffer [] = Unit
AllDiffer (k ∷ ks) = All (λ j. (k == j) ≡ false) ks × AllDiffer ks

-- The keys of a dictionary differ.
abbrev pub IsKeyed : Outbox → Type 0
IsKeyed outbox = AllDiffer (keys outbox)

-- The tries that are left.
abbrev pub budget : Outbox → ℕ
budget [] = 0
budget (i ∷ is) = (max_attempts - i.attempts) + budget is

pub budget-le : (is : Outbox) → budget is ≤ max_attempts * length is
budget-le [] = omega arith
budget-le (i ∷ is) = omega (arith, budget-le is)

-- What names a row and what it promises to send: all but its state.
abbrev pub promise : OutboxItem → String × String × String × String × String
promise i = (i.id, i.process_id, i.protocol_id, i.event_id, i.payload_sha256)

-- A row that is delivered or has failed for good stays as it is, and no row changes its promise.
abbrev pub Kept : OutboxItem → OutboxItem → Type 0
Kept i j = (promise j ≡ promise i) × ((is_waiting i.status ≡ true) ⊎ (j ≡ i))

abbrev pub AllKept : Outbox → Outbox → Type 0
AllKept [] [] = Unit
AllKept (i ∷ is) (j ∷ js) = Kept i j × AllKept is js
AllKept _ _ = ⊥

pub AllKept-refl : (is : Outbox) → AllKept is is
AllKept-refl [] = tt
AllKept-refl (i ∷ is) = ((refl, inr refl), AllKept-refl is)

pub AllKept-trans : (is js ks : Outbox) → AllKept is js → AllKept js ks → AllKept is ks
AllKept-trans [] [] [] h h' = tt
AllKept-trans (i ∷ is) (j ∷ js) (k ∷ ks) h h' = (
  (
    h'.0.0 ∙ h.0.0,
    elim h.0.1 [
      | inl waits ↦ inl waits
      | inr same ↦ elim h'.0.1 [
        | inl waits ↦ inl (ap (λ i. is_waiting i.status) (sym same) ∙ waits)
        | inr same' ↦ inr (same' ∙ same)
      ]
    ],
  ),
  AllKept-trans is js ks h.1 h'.1,
)
AllKept-trans [] [] (_ ∷ _) h h' = absurd h'
AllKept-trans [] (_ ∷ _) _ h h' = absurd h
AllKept-trans (_ ∷ _) [] _ h h' = absurd h
AllKept-trans (_ ∷ _) (_ ∷ _) [] h h' = absurd h'

-- What depends on the promises only stays true of the rows.
pub All-AllKept :
    (P : OutboxItem → Type 0)
    → ((i j : OutboxItem) → promise j ≡ promise i → P i → P j)
    → (is js : Outbox) → AllKept is js
    → All P is
    → All P js
All-AllKept P stays [] [] kept h = tt
All-AllKept P stays (i ∷ is) (j ∷ js) kept h =
    (stays i j kept.0.0 h.0, All-AllKept P stays is js kept.1 h.1)
All-AllKept P stays [] (_ ∷ _) kept h = absurd kept
All-AllKept P stays (_ ∷ _) [] kept h = absurd kept

module _ (p : OutboxItem → Bool) (f : OutboxItem → OutboxItem) where
  pub change_first-AllKept :
      (is : Outbox) {i : OutboxItem}
      → find p is ≡ some i
      → Kept i (f i)
      → AllKept is (change_first p f is)
  change_first-AllKept [] h kept = cc
  change_first-AllKept (j ∷ js) {i} h kept = elim (Bool-cases (p j)) [
    | inl e ↦ let same : j ≡ i = cc in rw e (rw same kept, AllKept-refl js)
    | inr e ↦
        let h' : find p js ≡ some i = cc in rw e ((refl, inr refl), change_first-AllKept js h' kept)
  ]

  pub budget-change_first :
      (is : Outbox) {i : OutboxItem}
      → find p is ≡ some i
      → budget (change_first p f is) + (max_attempts - i.attempts)
        ≡ budget is + (max_attempts - (f i).attempts)
  budget-change_first [] h = cc
  budget-change_first (j ∷ js) {i} h = ground (arith, budget-change_first js {i = i})

  pub keys-change_first :
      (is : Outbox)
      → ((i : OutboxItem) → (f i).protocol_id ≡ i.protocol_id)
      → keys (change_first p f is) ≡ keys is
  keys-change_first [] same = refl
  keys-change_first (j ∷ js) same = ground (arith, same j, keys-change_first js same)

-- The row that the key of the row finds is the row itself.
abbrev pub IsFound : Outbox → OutboxItem → Type 0
IsFound is j = find (λ i. i.protocol_id == j.protocol_id) is ≡ some j

IsFound-behind :
    (i : OutboxItem) (is js : Outbox)
    → All (λ k. (i.protocol_id == k) ≡ false) (keys js)
    → All (IsFound is) js
    → All (IsFound (i ∷ is)) js
IsFound-behind i is [] differ h = tt
IsFound-behind i is (j ∷ js) differ h = (rw (differ.0) (h.0), IsFound-behind i is js differ.1 h.1)

-- In a dictionary a key finds its row.
pub IsFound-by_key : (is : Outbox) → IsKeyed is → All (IsFound is) is
IsFound-by_key [] h = tt
IsFound-by_key (i ∷ is) h = (
  ground (arith, eq_iff i.protocol_id i.protocol_id),
  IsFound-behind i is is h.0 (IsFound-by_key is h.1),
)

module _ (p : OutboxItem → Bool) where
  pub found_of_any :
      (is : Outbox) → any p is ≡ true → (i : OutboxItem) × (find p is ≡ some i) × (p i ≡ true)
  found_of_any [] h = cc
  found_of_any (j ∷ js) h = elim (Bool-cases (p j)) [
    | inl e ↦ (j, rw e refl, e)
    | inr e ↦
        let rest : any p js ≡ true = ground (arith, h, e) in
        let (i, found, holds) = found_of_any js rest in (i, rw e found, holds)
  ]

  -- The row that was changed is still there.
  pub any-change_first :
      (q : OutboxItem → Bool) (f : OutboxItem → OutboxItem) (is : Outbox) {i : OutboxItem}
      → find p is ≡ some i
      → q (f i) ≡ true
      → any q (change_first p f is) ≡ true
  any-change_first q f [] h holds = cc
  any-change_first q f (j ∷ js) {i} h holds = elim (Bool-cases (p j)) [
    | inl e ↦ let same : j ≡ i = cc in rw e (rw same (rw holds refl))
    | inr e ↦
        let h' : find p js ≡ some i = cc in
        rw e (ground (arith, any-change_first q f js {i = i} h' holds))
  ]
