-- ===== src/Examples/Syncs.antt =====
-- Turns of the relay of backend/src/kontur/infrastructure/sync_relay.py.
use kontur.Prelude.{String, ◌≡◌, refl, none, some, Option, [], ◌∷◌, true, err, arith}
use kontur.Domain.Status.{pending_sync, verifying}
use kontur.Outbox.{OutboxItem, OutboxRow, is_eligible}
use kontur.Store.Materialize.{new_item}
use kontur.Sync.{Database, lifecycle, relay_once_postgres_with_sync, committed}
use kontur.Prelude.{String_eq}
use kontur.Sync.Turn.{stale_row_blocks}
use kontur.Examples.Stores.{snapshot}

abbrev item : OutboxItem
item = new_item "1" "protocol-1" "d1" "rin-protocol-1" 9

abbrev database : Database
database = record {
  processes = record snapshot { sync_state = pending_sync } ∷ [];
  outbox = item ∷ [];
  audit_log = [];
}

abbrev claimed_row : OutboxRow
claimed_row = record {
  id = "outbox-protocol-1";
  process_id = "1";
  protocol_id = "protocol-1";
  event_id = "rin-protocol-1";
  payload_sha256 = "d1";
  attempts = 1;
}

abbrev stored : String → Option String
stored protocol_id = some "d1"

abbrev same : String → String
same body = body

abbrev publish : OutboxRow → String → Option String
publish r body = none

-- The protocol was opened again before it was sent.
abbrev reopened : Database
reopened = record database {
  processes = record snapshot { process_state = verifying; protocol_id = none } ∷ [];
}

item_is_due : is_eligible 10 item ≡ true
unfolding is_eligible
item_is_due = refl

stale_row_blocks_example :
    committed reopened (relay_once_postgres_with_sync String stored same publish 700 reopened)
    ≡ (err (lifecycle "rin-protocol-1"), reopened)
stale_row_blocks_example =
    stale_row_blocks String stored same publish item [] reopened refl 10 700 item_is_due
      (omega arith) refl
