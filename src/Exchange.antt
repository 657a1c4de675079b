-- ===== src/Exchange.antt =====
-- The store in memory with its relay: backend/src/kontur/infrastructure/db/process_store.py and
-- backend/src/kontur/infrastructure/outbox.py together, and what the broker hands to the inbox.
pub mod Intact
pub mod Accepted
pub mod Registry
use kontur.Prelude.{ℕ, true, Option, none, some, is_some, String, List, [], ◌≡◌, Result, ok}
use kontur.Prelude.Json.{Fields}
use kontur.Prelude.Dict.{lookup, insert}
use kontur.Domain.Models.{Finding}
use kontur.Outbox.{OutboxStatus, OutboxRow, OutboxError, Outbox, RinResult, relay_once_memory}
use kontur.Inbox.{BrokerDelivery}
use kontur.Store.{ProcessSnapshot, MemoryProcessStore, save, save_finding, replace_findings, clear}
use kontur.Store.Records.{save_audit_event}
use kontur.Store.Materialize.{materialize_finalized, load_protocol}

-- `canonical` is the canonical text of an object, `loads` reads a text that is an object, `clone` reads
-- a canonical text back, and `sha256` is the digest of a text.
module _ {Float : Type 0} (canonical : Fields Float → String) (clone : Fields Float → Fields Float)
    (sha256 : String → String) where
  abbrev pub protocol_payload_sha256 : Fields Float → String
  protocol_payload_sha256 d = sha256 (canonical d)

  -- The digest of the body's text, where the body is the canonical text of `d`: reading it gives
  -- `clone d`, which `_protocol_cell` clones.
  abbrev pub published_digest : Fields Float → String
  published_digest d = protocol_payload_sha256 (clone (clone d))

  abbrev digest_of_object : Option (Fields Float) → Option String
  digest_of_object none = none
  digest_of_object (some d) = some (protocol_payload_sha256 (clone d))

  -- Nothing where the body is not the text of an object.
  abbrev pub payload_digest : (String → Option (Fields Float)) → String → Option String
  payload_digest loads body = digest_of_object (loads body)

module _ {Float Event Evidence : Type 0} (canonical : Fields Float → String)
    (clone : Fields Float → Fields Float) (sha256 : String → String) where
  abbrev with_outbox :
      MemoryProcessStore Float Event Evidence
      → Result OutboxError (Option OutboxStatus) × Outbox
      → Result OutboxError (Option OutboxStatus) × MemoryProcessStore Float Event Evidence
  with_outbox store (outcome, rows) = (outcome, record store { outbox = rows })

  abbrev pub relay_rows :
      (OutboxRow → String → Option String)
      → (String → String → RinResult)
      → ℕ
      → MemoryProcessStore Float Event Evidence
      → Result OutboxError (Option OutboxStatus) × Outbox
  relay_rows publish deliver now store =
      relay_once_memory (Fields Float) (λ protocol_id. load_protocol clone protocol_id store)
        (published_digest canonical clone sha256) (λ row d. publish row (canonical d))
        (λ d. deliver (canonical d)) now store.outbox

  -- A turn of the relay on the store.
  abbrev pub relay_store :
      (OutboxRow → String → Option String)
      → (String → String → RinResult)
      → ℕ
      → MemoryProcessStore Float Event Evidence
      → Result OutboxError (Option OutboxStatus) × MemoryProcessStore Float Event Evidence
  relay_store publish deliver now store = with_outbox store (relay_rows publish deliver now store)

  -- What changes the store. Each turn of the relay meets its own broker and outside system.
  pub data Step (store : MemoryProcessStore Float Event Evidence)
      : MemoryProcessStore Float Event Evidence → Type 0 where
    saves :
        (s : ProcessSnapshot) {after : MemoryProcessStore Float Event Evidence}
        → save s store ≡ ok after
        → Step store after
    saves_finding :
        (process_id : String) (f : Finding Float) → Step store (save_finding process_id f store)
    replaces_findings :
        (process_id : String) (fs : List (Finding Float))
        → Step store (replace_findings process_id fs store)
    materializes :
        (s : ProcessSnapshot) (payload : Fields Float) (now : ℕ)
        {after : MemoryProcessStore Float Event Evidence}
        → materialize_finalized canonical clone
            (protocol_payload_sha256 canonical clone sha256)
            s
            payload
            now
            store
          ≡ ok after
        → Step store after
    relays :
        (publish : OutboxRow → String → Option String) (deliver : String → String → RinResult)
        (now : ℕ)
        → Step store (relay_store publish deliver now store).1
    audits :
        (process_id : String) (event : Event) → Step store (save_audit_event process_id event store)
    -- `save_evidence_groups`, by the text of the groups.
    saves_evidence :
        (process_id : String) (raw : Evidence)
        → is_some (lookup process_id store.rows) ≡ true
        → Step store (record store { evidence = insert process_id raw store.evidence })
    clears : Step store (clear store)

  abbrev pub initial : MemoryProcessStore Float Event Evidence
  initial = record {
    rows = [];
    findings = [];
    audit = [];
    protocols = [];
    full_protocols = [];
    outbox = [];
    evidence = [];
  }

  -- The stores that a run from the empty one reaches.
  pub data Reached : MemoryProcessStore Float Event Evidence → Type 0 where
    starts : Reached initial
    goes_on :
        {store after : MemoryProcessStore Float Event Evidence}
        → Reached store
        → Step store after
        → Reached after

-- The message that the relay publishes, as the worker receives it on its `n`-th delivery: the
-- identifiers and the digest come from the headers that `_publish_row` sends.
abbrev pub delivered_message : String → ℕ → OutboxRow → String → BrokerDelivery String
delivered_message tag n row body = record {
  event_id = row.event_id;
  process_id = row.process_id;
  protocol_id = row.protocol_id;
  payload_sha256 = row.payload_sha256;
  body = body;
  redelivery_count = n;
  delivery_tag = tag;
}
