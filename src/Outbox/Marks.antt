-- ===== src/Outbox/Marks.antt =====
-- What marking a claimed row makes of the outbox.
use kontur.Prelude.{
  ℕ, ◌-◌, ◌≤◌, ◌≡◌, refl, ap, inl, inr, Bool, true, ◌||◌, Option, none, some, String, [], ◌∷◌, ◌==◌,
  get_elem?, any, ok, err, >>=-eq-ok, leb, if◌then◌else◌, Bool-cases, arith,
}
use kontur.Prelude.{String_eq, ℕ_eq}
use kontur.Outbox.{
  OutboxStatus, pending, failed_terminal, OutboxItem, OutboxRow, Outbox, OutboxError, retry_delay,
  change_first, is_claimed, mark_memory_delivered, status_after, failed, mark_memory_failed,
  max_attempts, retry_seconds, lookup_error,
}
use mathlib.Core.Path.{subst}
use kontur.Outbox.Rows.{
  promise, budget, AllKept, AllKept-refl, keys, change_first-AllKept, budget-change_first,
  keys-change_first, found_of_any,
}

-- The tries of the row with a key.
abbrev pub tried : String → Outbox → ℕ
tried key [] = 0
tried key (i ∷ is) = if i.protocol_id == key then i.attempts else tried key is

tried-change_first :
    (p : OutboxItem → Bool) (f : OutboxItem → OutboxItem) (key : String) (is : Outbox)
    → ((i : OutboxItem) → ((f i).protocol_id ≡ i.protocol_id) × ((f i).attempts ≡ i.attempts))
    → tried key (change_first p f is) ≡ tried key is
tried-change_first p f key [] same = refl
tried-change_first p f key (i ∷ is) same = elim (Bool-cases (p i)) [
  | inl e ↦
      rw e (rw (same i).0 (ap (λ n. if i.protocol_id == key then n else tried key is) (same i).1))
  | inr e ↦ rw e (
      ap (λ n. if i.protocol_id == key then i.attempts else n) (tried-change_first p f key is same))
]

-- Rows are marked, but no try is spent, and no settled row or key is touched.
abbrev pub IsMarked : Outbox → Outbox → Type 0
IsMarked before after =
    (budget after ≡ budget before)
    × AllKept before after
    × (keys after ≡ keys before)
    × ((key : String) → tried key after ≡ tried key before)

pub IsMarked-refl : (outbox : Outbox) → IsMarked outbox outbox
IsMarked-refl outbox = (refl, AllKept-refl outbox, refl, λ key. refl)

change_claimed-IsMarked :
    (id : String) (f : OutboxItem → OutboxItem) (outbox : Outbox)
    → ((i : OutboxItem) → (promise (f i) ≡ promise i) × ((f i).attempts ≡ i.attempts))
    → any (is_claimed id) outbox ≡ true
    → IsMarked outbox (change_first (is_claimed id) f outbox)
change_claimed-IsMarked id f outbox same h =
    let (i, found, holds) = found_of_any (is_claimed id) outbox h in
    (
      ground (arith, budget-change_first (is_claimed id) f outbox found, (same i).1),
      change_first-AllKept (is_claimed id) f outbox found ((same i).0, inl (ground (arith, holds))),
      keys-change_first (is_claimed id) f outbox (λ j. ap (λ q. q.2) (same j).0),
      λ key.
          tried-change_first (is_claimed id) f key outbox
            (λ j. (ap (λ q. q.2) (same j).0, (same j).1)),
    )

-- What both marks do: change the claimed row, or raise.
IsMarked-change :
    (id : String) (f : OutboxItem → OutboxItem) (outbox : Outbox) (e : OutboxError) {after : Outbox}
    → ((i : OutboxItem) → (promise (f i) ≡ promise i) × ((f i).attempts ≡ i.attempts))
    → (if any (is_claimed id) outbox then ok (change_first (is_claimed id) f outbox) else err e)
      ≡ ok after
    → IsMarked outbox after
IsMarked-change id f outbox e {after} same h = elim (Bool-cases (any (is_claimed id) outbox)) [
  | inl found ↦
      let at_after : change_first (is_claimed id) f outbox ≡ after = ground (arith, h, found) in
      subst (IsMarked outbox) at_after (change_claimed-IsMarked id f outbox same found)
  | inr missing ↦ absurd (ground (arith, h, missing))
]

pub mark_memory_delivered-IsMarked :
    (id : String) (outbox : Outbox) {after : Outbox}
    → mark_memory_delivered id outbox ≡ ok after
    → IsMarked outbox after
unfolding mark_memory_delivered
mark_memory_delivered-IsMarked id outbox h =
    IsMarked-change id _ outbox (lookup_error id) (λ i. (refl, refl)) h

same_row :
    (now : ℕ) (error : String) (delay : Option ℕ) (i : OutboxItem)
    → (promise (failed now error delay i) ≡ promise i)
      × ((failed now error delay i).attempts ≡ i.attempts)
same_row now error none i = (refl, refl)
same_row now error (some _) i = (refl, refl)

pub mark_memory_failed-IsMarked :
    (row : OutboxRow) (now : ℕ) (error : String) (terminal : Bool) (outbox : Outbox)
    {status : OutboxStatus} {after : Outbox}
    → mark_memory_failed row now error terminal outbox ≡ ok (status, after)
    → IsMarked outbox after
unfolding mark_memory_failed
mark_memory_failed-IsMarked row now error terminal outbox {status} {after} h =
    let (delay, e, h') = >>=-eq-ok (if terminal then ok none else retry_delay row.attempts) _ h in
    IsMarked-change row.id (failed now error delay) outbox (lookup_error row.id)
      (same_row now error delay) (ground (arith, h'))

unfoldable pub delay_for : Bool → ℕ → Option ℕ
delay_for terminal attempts =
    if terminal || leb max_attempts attempts then none else get_elem? retry_seconds (attempts - 1)

pub delay_lem :
    (terminal : Bool) (attempts : ℕ)
    → 1 ≤ attempts
    → ((if terminal then ok none else retry_delay attempts) ≡ ok (delay_for terminal attempts))
      × (status_after (delay_for terminal attempts)
          ≡ (if terminal || leb max_attempts attempts then failed_terminal else pending))
unfolding retry_delay delay_for
delay_lem terminal attempts tried = (ground (arith, tried), ground (arith, tried))

-- A row that is claimed can be marked as failed, with the status that its tries call for.
pub mark_memory_failed_ok :
    (row : OutboxRow) (now : ℕ) (error : String) (terminal : Bool) (outbox : Outbox)
    → any (is_claimed row.id) outbox ≡ true
    → 1 ≤ row.attempts
    → (after : Outbox) × (mark_memory_failed row now error terminal outbox
        ≡ ok
            (if terminal || leb max_attempts row.attempts then failed_terminal else pending, after))
unfolding mark_memory_failed
mark_memory_failed_ok row now error terminal outbox found tried =
    let (at_delay, at_status) = delay_lem terminal row.attempts tried in
    (
      change_first (is_claimed row.id) (failed now error (delay_for terminal row.attempts)) outbox,
      rw at_delay (rw found (rw at_status refl)),
    )
