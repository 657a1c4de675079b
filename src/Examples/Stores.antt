-- ===== src/Examples/Stores.antt =====
-- Runs of the store in memory of backend/src/kontur/infrastructure/db/process_store.py.
use kontur.Prelude.{ℕ, String, ◌≡◌, refl, none, some, [], ◌∷◌, ok}
use kontur.Prelude.Json.{Json, Fields, end, field, nil, get, put, pop}
use kontur.Prelude.Dict.{lookup, insert}
use kontur.Prelude.Text.{lacks_text}
use kontur.Domain.Status.{finalized, Scenario, missing, not_requested}
use kontur.Protocol.Wire.{protocol_for_rin, clean_section, clean_rows}
use kontur.Store.{
  ProcessSnapshot, MemoryProcessStore, validate_snapshot, save, reject_unsafe_protocol_payload,
  outbox_event_id,
}
use kontur.Store.Materialize.{new_item, put_item, materialize_finalized}
use kontur.Prelude.{◌↔◌, true}
use kontur.Store.Accepts.{accepts, finalized_store, materialize_finalized_lem}
use kontur.Store.{load_findings, replace_findings}
use kontur.Store.Kept.{load_findings-replace}
use kontur.Examples.{one, two}

abbrev pub snapshot : ProcessSnapshot
snapshot = record {
  process_id = "1";
  object_id = "o1";
  process_state = finalized;
  scenario = Scenario.full;
  matrix_version = "m1";
  model_version = "v1";
  dataset_version = none;
  parse_attempts = 0;
  sync_attempts = 0;
  sync_state = not_requested;
  last_error_code = none;
  finalized_by = some "anna";
  protocol_id = some "protocol-1";
  completeness_pd = missing;
  completeness_rd = missing;
  completeness_id = missing;
  input_manifest_hash = "pending";
  files = [];
}

abbrev pub document : Fields ℕ
document = field "protocol_id" (Json.text "protocol-1") (
    field "object_id" (Json.text "o1")
      (field "version" (Json.int 1) (field "status" (Json.text "PROTOCOL_FINALIZED") end)))

abbrev sent : Fields ℕ
sent = field "protocol_id" (Json.text "protocol-1") (
    field "object_id" (Json.text "o1") (
      field "version" (Json.int 1) (
        field "status" (Json.text "PROTOCOL_FINALIZED") (
          field "sections"
            (Json.obj
              (field "confirmed" (Json.arr nil) (field "negative_verified" (Json.arr nil) end)))
            (field "violation_count" (Json.int 0) end)))))

abbrev empty : MemoryProcessStore ℕ String String
empty = record {
  rows = [];
  findings = [];
  audit = [];
  protocols = [];
  full_protocols = [];
  outbox = [];
  evidence = [];
}

abbrev canonical : Fields ℕ → String
canonical d = ""

abbrev copy : Fields ℕ → Fields ℕ
copy d = d

abbrev after : MemoryProcessStore ℕ String String
after = record empty {
  rows = ("1", snapshot) ∷ [];
  protocols = ("protocol-1", sent) ∷ [];
  full_protocols = ("protocol-1", document) ∷ [];
  outbox = new_item "1" "protocol-1" "" "rin-protocol-1" 9 ∷ [];
}

materialized : materialize_finalized canonical copy canonical snapshot document 9 empty ≡ ok after
unfolding materialize_finalized save validate_snapshot reject_unsafe_protocol_payload
    outbox_event_id put_item protocol_for_rin clean_section clean_rows get put pop lookup insert
    lacks_text
materialized = refl

materialize_finalized_lem_example :
    (materialize_finalized canonical copy canonical snapshot document 9 empty ≡ ok after) ↔ (
      (accepts canonical copy
          (some "protocol-1")
          (protocol_for_rin document)
          snapshot
          document
          empty
        ≡ true)
      × ((protocol_id : String) × (out : Fields ℕ) × (some "protocol-1" ≡ some protocol_id)
          × (protocol_for_rin document ≡ ok out)
          × (after
              ≡ finalized_store canonical copy canonical snapshot document 9 empty protocol_id
                  out)))
materialize_finalized_lem_example =
    materialize_finalized_lem canonical copy canonical snapshot document 9 empty after

load_findings-replace_example :
    (load_findings "1" (replace_findings "1" (one ∷ two ∷ []) empty) ≡ one ∷ two ∷ [])
    × (load_findings "2" (replace_findings "1" (one ∷ two ∷ []) empty) ≡ load_findings "2" empty)
load_findings-replace_example =
    load_findings-replace "1" "2" (one ∷ two ∷ []) empty ((refl, tt), (tt, tt)) refl
