-- ===== src/Sync.antt =====
-- backend/src/kontur/infrastructure/sync_relay.py on the tables of PostgreSQL: the relay that keeps the
-- transfer state of the process beside the row of the outbox, and the retry that a human asks for.
pub mod Recording
pub mod Settled
pub mod Turn
use kontur.Prelude.{
  ℕ, Bool, true, false, not, ◌&&◌, ◌||◌, Option, none, some, is_some, String, List, [], ◌∷◌, ◌++◌,
  map, any, find, Result, ok, err, ◌>>=◌, ◌>>◌, raise_if, ◌==◌, if◌then◌else◌,
}
use kontur.Prelude.{String_eq, or_raise, raised_as}
use Prim.Native.String.{◌++◌ as concat}
use kontur.Prelude.Text.{lacks_text}
use kontur.Domain.Status.{ProcessState_eq, finalized, SyncState, pending_sync, syncing, retry_wait}
use kontur.Outbox.{
  OutboxStatus, pending, delivered, failed_terminal, OutboxItem, OutboxRow, Outbox, OutboxError,
  row_from_mapping, is_eligible, leased, change_first, is_claimed, retry_delay, failed,
  status_after,
}
use kontur.Store.{ProcessSnapshot}

-- The action of an audit record, with what its details show.
pub data SyncAction : Type 0 where
  retry_exhausted : (attempts : ℕ) (error_code : Option String) → SyncAction
  manual_retry : (requested_at : ℕ) → SyncAction

pub record AuditRow : Type 0 where
  pub id : String
  pub user_id : String
  pub action : SyncAction
  pub object_id : String
  pub process_id : String
  pub event_id : String
  pub protocol_id : String

-- The tables; the rows of the outbox stand in the order of `created_at`.
pub record Database : Type 0 where
  pub processes : List ProcessSnapshot
  pub outbox : Outbox
  pub audit_log : List AuditRow

-- `SyncLifecycleError` with the event, `ValueError`, `LookupError`, and what the outbox raises
pub data SyncError : Type 0 where
  lifecycle : String → SyncError
  invalid : String → SyncError
  missing : String → SyncError
  of_outbox : OutboxError → SyncError

-- `WHERE id = … AND process_state = 'FINALIZED' AND protocol_id = …`
abbrev pub has_protocol : String → Option String → Bool
has_protocol protocol_id none = false
has_protocol protocol_id (some p) = p == protocol_id

abbrev pub is_pair : OutboxRow → ProcessSnapshot → Bool
is_pair row s =
    s.process_id == row.process_id
    && (s.process_state == finalized && has_protocol row.protocol_id s.protocol_id)

abbrev pub set_sync : OutboxRow → SyncState → ℕ → Option String → ProcessSnapshot → ProcessSnapshot
set_sync row state attempts error s =
    if is_pair row s
    then record s { sync_state = state; sync_attempts = attempts; last_error_code = error }
    else s

unfoldable pub update_process :
    OutboxRow → SyncState → ℕ → Option String → Database → Result SyncError Database
update_process row state attempts error db =
    if any (is_pair row) db.processes
    then ok (record db { processes = map (set_sync row state attempts error) db.processes })
    else err (lifecycle row.event_id)

abbrev action_id : SyncAction → String → String
action_id (retry_exhausted _ _) event_id = concat "audit-sync_retry_exhausted-" event_id
action_id (manual_retry _) event_id = concat "audit-sync_manual_retry-" event_id

abbrev insert_audit : AuditRow → List AuditRow → List AuditRow
insert_audit row rows = if any (λ r. r.id == row.id) rows then rows else rows ++ row ∷ []

-- `INSERT … SELECT … FROM processes … ON CONFLICT (id) DO NOTHING`
unfoldable pub write_audit : OutboxRow → String → SyncAction → Database → Database
write_audit row actor_id action db =
    elim (find (λ s. s.process_id == row.process_id) db.processes) [
      | none ↦ db
      | some s ↦ record db {
        audit_log =
            insert_audit
              (record {
                id = action_id action row.event_id;
                user_id = actor_id;
                action = action;
                object_id = s.object_id;
                process_id = s.process_id;
                event_id = row.event_id;
                protocol_id = row.protocol_id;
              })
              db.audit_log;
      }
    ]

-- `CLAIM_OUTBOX_SQL`
unfoldable pub claim_postgres : ℕ → Outbox → Option (OutboxRow × Outbox)
unfolding is_eligible
claim_postgres now outbox = elim (find (is_eligible now) outbox) [
  | none ↦ none
  | some item ↦
      some (
        row_from_mapping (leased now item),
        change_first (λ i. i.id == item.id) (leased now) outbox,
      )
]

-- `MARK_DELIVERED_SQL`, `MARK_RETRY_SQL` and `MARK_TERMINAL_SQL`
abbrev pub mark_postgres_delivered : String → Outbox → Outbox
mark_postgres_delivered id =
    change_first (is_claimed id) (λ i. record i { status = delivered; last_error = none })

unfoldable pub mark_postgres_failed :
    OutboxRow → ℕ → String → Bool → Outbox → Result SyncError (OutboxStatus × Outbox)
unfolding retry_delay
mark_postgres_failed row now error terminal outbox = do
  delay ← if terminal then ok none else raised_as of_outbox (retry_delay row.attempts)
  ok (status_after delay, change_first (is_claimed row.id) (failed now error delay) outbox)

unfoldable pub record_sync_claimed : OutboxRow → Database → Result SyncError Database
unfolding update_process
record_sync_claimed row db = update_process row syncing row.attempts none db

-- The outcomes of a turn, as the transfer state of the process.
abbrev pub sync_state_of : OutboxStatus → Option SyncState
sync_state_of delivered = some syncing
sync_state_of pending = some retry_wait
sync_state_of failed_terminal = some pending_sync
sync_state_of OutboxStatus.delivering = none

abbrev pub error_of : OutboxStatus → Option String → Option String
error_of delivered error = none
error_of _ error = error

abbrev pub audited : OutboxRow → OutboxStatus → Option String → Database → Database
audited row failed_terminal error db =
    write_audit row "system:outbox-relay" (retry_exhausted row.attempts error) db
audited row _ error db = db

unfoldable pub record_sync_outcome :
    OutboxRow → OutboxStatus → Option String → Database → Result SyncError Database
unfolding update_process write_audit
record_sync_outcome row outcome error db = do
  state ← or_raise (sync_state_of outcome) (invalid "unknown relay outcome")
  updated ← update_process row state row.attempts (error_of outcome error) db
  ok (audited row outcome error updated)

-- `stored_protocol`, `digest` and `publish` are those of the outbox.
module _ (Body : Type 0) (stored_protocol : String → Option Body) (digest : Body → String)
    (publish : OutboxRow → Body → Option String) where
  -- The error of a try and whether it is final.
  abbrev pub failure : OutboxRow → Body → Option (String × Bool)
  failure row body =
      if digest body == row.payload_sha256
      then elim (publish row body) [ none ↦ none | some error ↦ some (error, false) ]
      else some ("payload_sha256 mismatch", true)

  abbrev pub after_try :
      OutboxRow
      → ℕ
      → Option (String × Bool)
      → Database
      → Result SyncError (Option OutboxStatus × Database)
  after_try row now none db =
      record_sync_outcome row delivered none
        (record db { outbox = mark_postgres_delivered row.id db.outbox })
      >>= λ after. ok (some delivered, after)
  after_try row now (some (error, final)) db =
      mark_postgres_failed row now error final db.outbox >>= λ marked.
      record_sync_outcome row marked.0 (some error) (record db { outbox = marked.1 }) >>= λ after.
      ok (some marked.0, after)

  abbrev pub claimed_turn :
      OutboxRow → ℕ → Database → Result SyncError (Option OutboxStatus × Database)
  claimed_turn row now db = do
    started ← record_sync_claimed row db
    body ← or_raise (stored_protocol row.protocol_id) (missing row.protocol_id)
    after_try row now (failure row body) started

  abbrev pub turn_from :
      ℕ → Database → Option (OutboxRow × Outbox) → Result SyncError (Option OutboxStatus × Database)
  turn_from now db none = ok (none, db)
  turn_from now db (some (row, outbox)) = claimed_turn row now (record db { outbox = outbox })

  unfoldable pub relay_once_postgres_with_sync :
      ℕ → Database → Result SyncError (Option OutboxStatus × Database)
  unfolding claim_postgres record_sync_claimed record_sync_outcome mark_postgres_failed
  relay_once_postgres_with_sync now db = turn_from now db (claim_postgres now db.outbox)

-- `RESET_FAILED_OUTBOX_SQL`
abbrev pub is_failed_of : String → OutboxItem → Bool
is_failed_of process_id i = i.process_id == process_id && is_failed i.status
  where
    is_failed : OutboxStatus → Bool
    is_failed failed_terminal = true
    is_failed _ = false

abbrev pub reset : ℕ → String → OutboxItem → OutboxItem
reset now process_id i =
    if is_failed_of process_id i
    then record i { status = pending; attempts = 0; available_at = now; last_error = none }
    else i

abbrev pub reset_row : String → OutboxItem → OutboxRow
reset_row process_id item = record {
  id = item.id;
  process_id = process_id;
  protocol_id = item.protocol_id;
  event_id = item.event_id;
  payload_sha256 = "";
  attempts = 0;
}

unfoldable pub retry_failed_sync :
    String → String → ℕ → Database → Result SyncError (String × Database)
unfolding update_process write_audit
retry_failed_sync process_id actor_id now db = do
  raise_if (lacks_text process_id) (invalid "process_id is required")
  raise_if (lacks_text actor_id) (invalid "actor_id is required")
  item ← or_raise (find (is_failed_of process_id) db.outbox) (missing process_id)
  updated ←
      update_process (reset_row process_id item) pending_sync 0 none
        (record db { outbox = map (reset now process_id) db.outbox })
  ok (item.id, write_audit (reset_row process_id item) actor_id (manual_retry now) updated)

-- `OutboxRelayWorker.run_once`: what raises is rolled back.
abbrev pub committed :
    {A : Type 0} → Database → Result SyncError (A × Database) → Result SyncError A × Database
committed db (ok (a, after)) = (ok a, after)
committed db (err e) = (err e, db)
