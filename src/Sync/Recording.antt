-- ===== src/Sync/Recording.antt =====
-- How a status is recorded in the table of processes.
use kontur.Prelude.{
  ◌⊎◌, ℕ, ◌+◌, ◌≤◌, ◌≡◌, refl, ap, inl, inr, Bool, true, false, ◌||◌, Option, none, some, String,
  List, [], ◌∷◌, map, any, find, ok, ◌==◌, leb, if◌then◌else◌, Bool-cases, Option-cases, arith,
}
use kontur.Prelude.{String_eq, raised_as}
use kontur.Domain.Status.{ProcessState_eq, SyncState, syncing, retry_wait, pending_sync}
use kontur.Outbox.{
  OutboxStatus, pending, delivered, failed_terminal, OutboxItem, OutboxRow, Outbox, max_attempts,
  row_from_mapping, is_eligible, leased, change_first, retry_delay, status_after,
}
use kontur.Outbox.Relay.{status_of_try}
use kontur.Outbox.Marks.{delay_for, delay_lem}
use kontur.Store.{ProcessSnapshot}
use kontur.Sync.{
  of_outbox, SyncAction, Database, is_pair, set_sync, update_process, write_audit, claim_postgres,
  record_sync_outcome, error_of, audited,
}

set_sync-set_sync :
    (row : OutboxRow) (state state' : SyncState) (error error' : Option String)
    (s : ProcessSnapshot)
    → set_sync row state' row.attempts error' (set_sync row state row.attempts error s)
      ≡ set_sync row state' row.attempts error' s
set_sync-set_sync row state state' error error' s = elim (Bool-cases (is_pair row s)) [
  | inl e ↦ rw (e, e) refl
  | inr e ↦ rw (e, e) refl
]

pub map-set_sync :
    (row : OutboxRow) (state state' : SyncState) (error error' : Option String)
    (processes : List ProcessSnapshot)
    → map
        (set_sync row state' row.attempts error')
        (map (set_sync row state row.attempts error) processes)
      ≡ map (set_sync row state' row.attempts error') processes
map-set_sync row state state' error error' [] = refl
map-set_sync row state state' error error' (s ∷ processes) =
    rw
      (
        set_sync-set_sync row state state' error error' s,
        map-set_sync row state state' error error' processes,
      )
      refl

pub any-set_sync :
    (row : OutboxRow) (state : SyncState) (error : Option String) (processes : List ProcessSnapshot)
    → any (is_pair row) (map (set_sync row state row.attempts error) processes)
      ≡ any (is_pair row) processes
any-set_sync row state error [] = refl
any-set_sync row state error (s ∷ processes) = elim (Bool-cases (is_pair row s)) [
  | inl e ↦ rw (e, e) refl
  | inr e ↦ rw (e, e) (any-set_sync row state error processes)
]

-- The state that a process has after a turn with this status.
abbrev pub state_after : OutboxStatus → SyncState
state_after delivered = syncing
state_after failed_terminal = pending_sync
state_after _ = retry_wait

pub claimed_first : ℕ → OutboxItem → Outbox → Outbox
claimed_first now item rest = change_first (λ i. i.id == item.id) (leased now) (item ∷ rest)

pub claim_first :
    (now : ℕ) (item : OutboxItem) (rest : Outbox)
    → is_eligible now item ≡ true
    → claim_postgres now (item ∷ rest)
      ≡ some (row_from_mapping (leased now item), claimed_first now item rest)
unfolding claim_postgres claimed_first
claim_first now item rest e = rw (claim_postgres, e) refl

pub still_eligible :
    (due now : ℕ) (item : OutboxItem)
    → is_eligible due item ≡ true
    → due ≤ now
    → is_eligible now item ≡ true
unfolding is_eligible
still_eligible due now item eligible later = ground (arith, eligible, later)

-- A claimed row has been tried.
pub claim_postgres-tried :
    (now : ℕ) (outbox : Outbox) {row : OutboxRow} {claimed : Outbox}
    → claim_postgres now outbox ≡ some (row, claimed)
    → 1 ≤ row.attempts
unfolding claim_postgres
claim_postgres-tried now outbox {row} e = elim (Option-cases (find (is_eligible now) outbox)) [
  | inl missing ↦ absurd (ground (arith, e, missing))
  | inr (item, found) ↦
      let at_row : row.attempts ≡ item.attempts + 1 = ground (arith, e, found) in
      omega (arith, at_row)
]

-- Writing to the log leaves the other tables.
abbrev SameTables : Database → Database → Type 0
SameTables after db = (after.processes ≡ db.processes) × (after.outbox ≡ db.outbox)

write_audit-processes :
    (row : OutboxRow) (actor_id : String) (action : SyncAction) (db : Database)
    → SameTables (write_audit row actor_id action db) db
unfolding write_audit
write_audit-processes row actor_id action db =
    elim (Option-cases (find (λ s. s.process_id == row.process_id) db.processes)) [
      | inl e ↦ rw (write_audit, e) (refl, refl)
      | inr (s, e) ↦ rw (write_audit, e) (refl, refl)
    ]

audited-processes :
    (row : OutboxRow) (status : OutboxStatus) (error : Option String) (db : Database)
    → SameTables (audited row status error db) db
audited-processes row failed_terminal error db = write_audit-processes row _ _ db
audited-processes row pending error db = (refl, refl)
audited-processes row OutboxStatus.delivering error db = (refl, refl)
audited-processes row delivered error db = (refl, refl)

abbrev pub with_state : OutboxRow → SyncState → Option String → Database → Database
with_state row state error db = record db {
  processes = map (set_sync row state row.attempts error) db.processes;
}

pub update_process-ok :
    (row : OutboxRow) (state : SyncState) (error : Option String) (db : Database)
    → any (is_pair row) db.processes ≡ true
    → update_process row state row.attempts error db ≡ ok (with_state row state error db)
unfolding update_process
update_process-ok row state error db paired = rw paired refl

-- Recording the status of a turn sets the state that belongs to it.
unfoldable pub IsRecorded : OutboxRow → OutboxStatus → Option String → Database → Type 0
IsRecorded row status error db =
    (after : Database) × (record_sync_outcome row status error db ≡ ok after)
    × (after.processes
        ≡ map (set_sync row (state_after status) row.attempts (error_of status error)) db.processes)
    × (after.outbox ≡ db.outbox)

pub recorded :
    (row : OutboxRow) (status : OutboxStatus) (error : Option String) (db : Database)
    → (status ≡ delivered) ⊎ (status ≡ pending) ⊎ (status ≡ failed_terminal)
    → any (is_pair row) db.processes ≡ true
    → IsRecorded row status error db
unfolding record_sync_outcome IsRecorded
recorded row delivered error db known paired = (
  with_state row syncing none db,
  rw (update_process-ok row syncing none db paired) refl,
  refl,
  refl,
)
recorded row pending error db known paired = (
  with_state row retry_wait error db,
  rw (update_process-ok row retry_wait error db paired) refl,
  refl,
  refl,
)
recorded row failed_terminal error db known paired = (
  audited row failed_terminal error (with_state row pending_sync error db),
  rw (update_process-ok row pending_sync error db paired) refl,
  (audited-processes row failed_terminal error (with_state row pending_sync error db)).0,
  (audited-processes row failed_terminal error (with_state row pending_sync error db)).1,
)
recorded row OutboxStatus.delivering error db (inl e) paired = cc
recorded row OutboxStatus.delivering error db (inr (inl e)) paired = cc
recorded row OutboxStatus.delivering error db (inr (inr e)) paired = cc

pub delayed :
    (final : Bool) (attempts : ℕ)
    → 1 ≤ attempts
    → (if final then ok none else raised_as of_outbox (retry_delay attempts))
      ≡ ok (delay_for final attempts)
delayed true attempts tried = ap (raised_as of_outbox) (delay_lem true attempts tried).0
delayed false attempts tried = ap (raised_as of_outbox) (delay_lem false attempts tried).0

pub final_status :
    (final : Bool) (attempts : ℕ) (error : String)
    → 1 ≤ attempts
    → (status_after (delay_for final attempts) ≡ status_of_try attempts (some (error, final)))
      × ((status_of_try attempts (some (error, final)) ≡ delivered)
          ⊎ (status_of_try attempts (some (error, final)) ≡ pending)
          ⊎ (status_of_try attempts (some (error, final)) ≡ failed_terminal))
final_status final attempts error tried =
    ((delay_lem final attempts tried).1, by_test (final || leb max_attempts attempts))
  where
    by_test :
        (b : Bool)
        → ((if b then failed_terminal else pending) ≡ delivered)
          ⊎ ((if b then failed_terminal else pending) ≡ pending)
          ⊎ ((if b then failed_terminal else pending) ≡ failed_terminal)
    by_test true = inr (inr refl)
    by_test false = inr (inl refl)

-- The text of a try's error.
abbrev pub error_text : Option (String × Bool) → Option String
error_text none = none
error_text (some (error, _)) = some error
