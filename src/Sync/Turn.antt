-- ===== src/Sync/Turn.antt =====
-- What a turn of the relay with transfer states makes of the tables.
use kontur.Prelude.{
  ℕ, ◌≤◌, ◌≡◌, refl, ap, ◌∙◌, true, false, Option, some, String, ◌∷◌, any, Result, err,
}
use kontur.Prelude.{String_eq}
use kontur.Domain.Status.{ProcessState_eq}
use kontur.Outbox.{
  OutboxStatus, OutboxItem, OutboxRow, Outbox, row_from_mapping, is_eligible, leased,
}
use kontur.Outbox.Relay.{status_of_try}
use kontur.Sync.{
  Database, SyncError, lifecycle, is_pair, update_process, claim_postgres, record_sync_claimed,
  failure, turn_from, relay_once_postgres_with_sync, committed,
}
use kontur.Sync.Recording.{claimed_first, claim_first, still_eligible, error_text}

module _ (Body : Type 0) (stored_protocol : String → Option Body) (digest : Body → String)
    (publish : OutboxRow → Body → Option String) where
  abbrev relay : ℕ → Database → Result SyncError (Option OutboxStatus × Database)
  relay = relay_once_postgres_with_sync Body stored_protocol digest publish

  stale_turn :
      (row : OutboxRow) (now : ℕ) (db : Database) (outbox : Outbox)
      → any (is_pair row) db.processes ≡ false
      → turn_from Body stored_protocol digest publish now db (some (row, outbox))
        ≡ err (lifecycle row.event_id)
  unfolding record_sync_claimed update_process
  stale_turn row now db outbox stale = rw stale refl

  -- While the first row of the outbox is due and belongs to no process that is finalized with its
  -- protocol, every turn raises and leaves the tables as they were, so that no other row is sent.
  pub stale_row_blocks :
      (item : OutboxItem) (rest : Outbox) (db : Database)
      → db.outbox ≡ item ∷ rest
      → (due now : ℕ) → is_eligible due item ≡ true
      → due ≤ now
      → any (is_pair (row_from_mapping (leased now item))) db.processes ≡ false
      → committed db (relay now db) ≡ (err (lifecycle item.event_id), db)
  unfolding relay_once_postgres_with_sync
  stale_row_blocks item rest db first due now eligible later stale =
      let row = row_from_mapping (leased now item) in
      ap (λ c. committed db (turn_from Body stored_protocol digest publish now db c))
        (ap (claim_postgres now) first
          ∙ claim_first now item rest (still_eligible due now item eligible later))
      ∙ ap (committed db) (stale_turn row now db (claimed_first now item rest) stale)

  -- The state of the process and the status of the row after a turn.
  abbrev status_of : OutboxRow → Body → OutboxStatus
  status_of row body =
      status_of_try row.attempts (failure Body stored_protocol digest publish row body)

  abbrev problem : OutboxRow → Body → Option String
  problem row body = error_text (failure Body stored_protocol digest publish row body)
