-- ===== src/Store/Materialize.antt =====
-- `materialize_finalized` and `load_protocol` of the store in memory.
use kontur.Prelude.{
  ℕ, Bool, false, not, ◌&&◌, Option, none, some, String, [], ◌∷◌, any, Result, ok, ◌>>=◌, ◌>>◌,
  raise_if, ◌==◌, if◌then◌else◌,
}
use kontur.Prelude.{String_eq, or_raise, raised_as}
use Prim.Native.String.{◌++◌ as concat}
use kontur.Prelude.Json.{Fields, get}
use kontur.Prelude.Dict.{lookup, insert}
use kontur.Domain.Status.{ProcessState_eq, SyncState_eq}
use kontur.Protocol.Wire.{protocol_for_rin}
use kontur.Outbox.{Outbox, OutboxItem, pending}
use kontur.Store.{
  ProcessSnapshot, MemoryProcessStore, StoreError, required, conflict, payload_error,
  validate_snapshot, outbox_event_id, reject_unsafe_protocol_payload, is_this_text, is_this_number,
  version_of, save,
}

-- `self._outbox[protocol_id] = …`
unfoldable pub put_item : OutboxItem → Outbox → Outbox
put_item item [] = item ∷ []
put_item item (i ∷ is) =
    let rest = put_item item is in if i.protocol_id == item.protocol_id then item ∷ is else i ∷ rest

abbrev pub new_item : String → String → String → String → ℕ → OutboxItem
new_item process_id protocol_id digest event_id now = record {
  id = concat "outbox-" protocol_id;
  process_id = process_id;
  protocol_id = protocol_id;
  payload_sha256 = digest;
  event_id = event_id;
  status = pending;
  attempts = 0;
  available_at = now;
  last_error = none;
}

module _ {Float : Type 0} where
  abbrev pub differs : (Fields Float → String) → Option (Fields Float) → Fields Float → Bool
  differs canonical none encoded = false
  differs canonical (some existing) encoded = not (canonical existing == canonical encoded)

  -- Another protocol of the object has the version.
  abbrev pub is_taken : String → String → Fields Float → String × Fields Float → Bool
  is_taken protocol_id object_id encoded (_, stored) =
      is_this_text object_id (get "object_id" stored)
      && (is_this_number (version_of (get "version" encoded)) (get "version" stored)
          && not (is_this_text protocol_id (get "protocol_id" stored)))

module _ {Float Event Evidence : Type 0} where
  -- `canonical` is the canonical text of an object, `clone` reads that text back, and `digest` is its
  -- SHA-256.
  unfoldable pub store_finalized :
      (Fields Float → String)
      → (Fields Float → Fields Float)
      → (Fields Float → String)
      → ProcessSnapshot
      → Fields Float
      → ℕ
      → MemoryProcessStore Float Event Evidence
      → String
      → Fields Float
      → Result StoreError (MemoryProcessStore Float Event Evidence)
  unfolding save outbox_event_id
  store_finalized canonical clone digest s payload now store protocol_id encoded = do
    raise_if (differs canonical (lookup protocol_id store.protocols) encoded) (conflict protocol_id)
    raise_if (any (is_taken protocol_id s.object_id encoded) store.protocols) (conflict s.object_id)
    saved ← save s store
    event_id ← outbox_event_id protocol_id
    ok (record saved {
      protocols = insert protocol_id encoded saved.protocols;
      full_protocols = insert protocol_id (clone payload) saved.full_protocols;
      outbox =
          put_item (new_item s.process_id protocol_id (digest encoded) event_id now) saved.outbox;
    })

  unfoldable pub materialize_finalized :
      (Fields Float → String)
      → (Fields Float → Fields Float)
      → (Fields Float → String)
      → ProcessSnapshot
      → Fields Float
      → ℕ
      → MemoryProcessStore Float Event Evidence
      → Result StoreError (MemoryProcessStore Float Event Evidence)
  unfolding store_finalized reject_unsafe_protocol_payload
  materialize_finalized canonical clone digest s payload now store = do
    validate_snapshot s
    reject_unsafe_protocol_payload payload s
    protocol_id ← or_raise s.protocol_id (required "FINALIZED требует protocol_id")
    sent ← raised_as payload_error (protocol_for_rin payload)
    store_finalized canonical clone digest s payload now store protocol_id (clone sent)

  unfoldable pub load_protocol :
      (Fields Float → Fields Float)
      → String
      → MemoryProcessStore Float Event Evidence
      → Option (Fields Float)
  load_protocol clone protocol_id store = elim (lookup protocol_id store.protocols) [
    | none ↦ none
    | some d ↦ some (clone d)
  ]
