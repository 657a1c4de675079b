-- ===== src/Sync/Settled.antt =====
-- What a turn of the relay with transfer states makes of the row that it has claimed.
use kontur.Prelude.{
  ℕ, ◌+◌, ◌-◌, ◌≡◌, refl, sym, ap, ◌∙◌, inl, inr, Bool, true, Option, none, some, String, eq_iff,
  [], ◌∷◌, find, get_elem?, ◌==◌, Bool-cases, Option-cases, arith,
}
use kontur.Prelude.{String_eq}
use kontur.Outbox.{
  OutboxStatus, pending, OutboxItem, OutboxRow, Outbox, is_eligible, change_first, leased,
  is_delivering, is_claimed, failed,
}
use kontur.Outbox.Marks.{delay_for}
use kontur.Outbox.Relay.{status_of_try}
use kontur.Sync.{claim_postgres}
use kontur.Sync.Recording.{error_text}

-- The row of an identifier is marked as sent off.
abbrev pub IsOut : String → Outbox → OutboxItem → Type 0
IsOut id outbox i = (find (λ j. j.id == id) outbox ≡ some i) × (is_delivering i.status ≡ true)

find-leased :
    (now : ℕ) (id : String) (is : Outbox) {item : OutboxItem} (p : OutboxItem → Bool)
    → find p is ≡ some item
    → item.id ≡ id
    → (i : OutboxItem) × IsOut id (change_first (λ j. j.id == id) (leased now) is) i
find-leased now id [] p h same = cc
find-leased now id (j ∷ js) {item} p h same = elim (Bool-cases (j.id == id)) [
  | inl e ↦ (leased now j, (rw e (rw e refl), refl))
  | inr e ↦ elim (Bool-cases (p j)) [
    | inl here ↦
        let at_item : j.id ≡ item.id = ground (arith, h, here) in
        let named : (j.id == id) ≡ true = (eq_iff j.id id).1 (at_item ∙ same) in
        absurd (ground (arith, e, named))
    | inr there ↦
        let h' : find p js ≡ some item = ground (arith, h, there) in
        let (i, (found, out)) = find-leased now id js p h' same in (i, (rw e (rw e found), out))
  ]
]

-- A claim leaves its row marked as sent off.
pub claimed-IsOut :
    (now : ℕ) (outbox : Outbox) {row : OutboxRow} {claimed : Outbox}
    → claim_postgres now outbox ≡ some (row, claimed)
    → (i : OutboxItem) × IsOut row.id claimed i
unfolding claim_postgres
claimed-IsOut now outbox {row} {claimed} e = elim (Option-cases (find (is_eligible now) outbox)) [
  | inl missing ↦ absurd (ground (arith, e, missing))
  | inr (item, found) ↦
      let at_row : row.id ≡ item.id = ground (arith, e, found) in
      let at_claimed : claimed ≡ change_first (λ i. i.id == item.id) (leased now) outbox =
        ground (arith, e, found) in
      rw (at_row, at_claimed) (find-leased now item.id outbox (is_eligible now) found refl)
]

-- Changing the row in place changes the row that its identifier finds.
pub find-change_claimed :
    (id : String) (f : OutboxItem → OutboxItem) (is : Outbox) {i : OutboxItem}
    → IsOut id is i
    → (f i).id ≡ i.id
    → find (λ j. j.id == id) (change_first (is_claimed id) f is) ≡ some (f i)
find-change_claimed id f [] (h, out) same = cc
find-change_claimed id f (j ∷ js) {i} (h, out) same = elim (Bool-cases (j.id == id)) [
  | inl e ↦
      let here : j ≡ i = ground (arith, h, e) in
      let named : ((f i).id == id) ≡ true =
        ap (λ k. k == id) same ∙ ap (λ k. k.id == id) (sym here) ∙ e in
      rw (e, here) (rw out (rw named refl))
  | inr e ↦
      let h' : find (λ k. k.id == id) js ≡ some i = ground (arith, h, e) in
      rw e (rw e (find-change_claimed id f js (h', out) same))
]

abbrev moved_to : ℕ → ℕ → Option ℕ → ℕ
moved_to now at none = at
moved_to now at (some delay) = now + delay

-- The moment from which a row may be tried again.
abbrev pub available_after : ℕ → ℕ → OutboxStatus → ℕ → ℕ
available_after now attempts pending at =
    moved_to now at (get_elem? (60 ∷ 300 ∷ 900 ∷ []) (attempts - 1))
available_after now attempts _ at = at

-- The row after a try that had this error, or none.
abbrev pub settled_item : ℕ → ℕ → Option (String × Bool) → OutboxItem → OutboxItem
settled_item now attempts o i = record i {
  status = status_of_try attempts o;
  available_at = available_after now attempts (status_of_try attempts o) i.available_at;
  last_error = error_text o;
}

pub failed-settled_item :
    (now attempts : ℕ) (error : String) (final : Bool) (i : OutboxItem)
    → failed now error (delay_for final attempts) i
      ≡ settled_item now attempts (some (error, final)) i
unfolding delay_for
failed-settled_item now attempts error final i = ground arith
