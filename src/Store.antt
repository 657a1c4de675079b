-- ===== src/Store.antt =====
-- The store in memory of infrastructure/db/process_store.py: snapshots of processes, the inspector's
-- queues, and finalized protocols with their rows of the outbox.
pub mod Materialize
pub mod Materialized
pub mod Records
pub mod Kept
pub mod Guards
pub mod Accepts
use kontur.Prelude.{
  ℕ, ◌+◌, ◌-◌, max, Bool, true, false, not, ◌&&◌, ◌||◌, Option, none, some, String, List, [], ◌∷◌,
  ◌++◌, Result, ok, ◌>>=◌, ◌>>◌, raise_if, ◌==◌, ltb, nat_eq, if◌then◌else◌,
}
use kontur.Prelude.{String_eq, or_raise}
use Prim.Native.String.{◌++◌ as concat}
use text.Mathlib.Text.{starts_with}
use kontur.Prelude.Text.{lacks_text, is_blank}
use kontur.Prelude.Json.{Json, Fields, get}
use kontur.Prelude.Dict.{Dict, lookup, insert}
use kontur.Domain.Status.{
  ProcessState, ProcessState_eq, finalized, Scenario, Completeness, SyncState, SyncState_eq,
  not_requested,
}
use kontur.Domain.Models.{DocStage, Finding}
use kontur.Protocol.Wire.{PayloadError, protocol_for_rin}
use kontur.Outbox.{Outbox}

abbrev pub max_parse_attempts : ℕ
max_parse_attempts = 8

abbrev pub max_sync_attempts : ℕ
max_sync_attempts = 4

pub record FileRecord : Type 0 where
  pub file_id : String
  pub file_hash : String
  pub filename : String
  pub doc_stage : DocStage
  pub size_bytes : ℕ
  pub predecessor_file_id : Option String
  pub successor_file_id : Option String
  pub file_path : Option String

pub record ProcessSnapshot : Type 0 where
  pub process_id : String
  pub object_id : String
  pub process_state : ProcessState
  pub scenario : Scenario
  pub matrix_version : String
  pub model_version : String
  pub dataset_version : Option String
  pub parse_attempts : ℕ
  pub sync_attempts : ℕ
  pub sync_state : SyncState
  pub last_error_code : Option String
  pub finalized_by : Option String
  pub protocol_id : Option String
  pub completeness_pd : Completeness
  pub completeness_rd : Completeness
  pub completeness_id : Completeness
  pub input_manifest_hash : String
  pub files : List FileRecord

-- `ValueError`, `ProtocolMaterializationRequiredError`, `ProtocolConflictError`, and what
-- `protocol_for_rin` raises; `KeyError`
pub data StoreError : Type 0 where
  invalid : String → StoreError
  required : String → StoreError
  conflict : String → StoreError
  payload_error : PayloadError → StoreError
  key_error : String → StoreError

-- `s is None or not s.strip()`
abbrev pub is_absent : Option String → Bool
is_absent none = true
is_absent (some s) = lacks_text s

unfoldable pub validate_snapshot : ProcessSnapshot → Result StoreError (Unit {0})
validate_snapshot s = do
  raise_if (lacks_text s.process_id || lacks_text s.object_id)
      (invalid "process_id и object_id обязательны")
  raise_if (ltb max_parse_attempts s.parse_attempts) (invalid "parse_attempts вне 0..8")
  raise_if (ltb max_sync_attempts s.sync_attempts) (invalid "sync_attempts вне 0..4")
  raise_if (s.process_state == finalized && is_absent s.finalized_by)
      (invalid "FINALIZED требует finalized_by")
  raise_if (s.process_state == finalized && is_absent s.protocol_id)
      (invalid "FINALIZED требует protocol_id")
  raise_if (not (s.sync_state == not_requested) && not (s.process_state == finalized))
      (invalid "выгрузка только после FINALIZED")
  raise_if (not (s.sync_state == not_requested) && is_absent s.protocol_id)
      (invalid "выгрузка без protocol_id запрещена")

unfoldable pub outbox_event_id : String → Result StoreError String
outbox_event_id protocol_id = do
  raise_if (lacks_text protocol_id) (invalid "protocol_id обязателен")
  ok (concat "rin-" protocol_id)

-- `finding.evidence_group_id or finding.finding_id`
abbrev pub finding_key : {Float : Type 0} → Finding Float → String
finding_key f = elim f.evidence_group_id [
  | none ↦ f.finding_id
  | some g ↦ if is_blank g then f.finding_id else g
]

module _ {Float : Type 0} where
  abbrev pub is_this_text : String → Option (Json Float) → Bool
  is_this_text s (some (Json.text t)) = t == s
  is_this_text s _ = false

  abbrev pub is_this_number : ℕ → Option (Json Float) → Bool
  is_this_number n (some (Json.int m)) = nat_eq m n
  is_this_number n _ = false

  abbrev pub is_false : Option (Json Float) → Bool
  is_false (some (Json.bool false)) = true
  is_false _ = false

  abbrev pub version_of : Option (Json Float) → ℕ
  version_of (some (Json.int n)) = n
  version_of _ = 0

  unfoldable pub reject_unsafe_protocol_payload :
      Fields Float → ProcessSnapshot → Result StoreError (Unit {0})
  reject_unsafe_protocol_payload payload s = do
    raise_if (not (s.process_state == finalized))
        (required "materialize_finalized только для FINALIZED")
    protocol_id ← or_raise s.protocol_id (required "FINALIZED требует protocol_id")
    raise_if (lacks_text protocol_id) (required "FINALIZED требует protocol_id")
    raise_if (is_this_text "internal_placeholder" (get "kind" payload))
        (required "internal_placeholder нельзя материализовать")
    raise_if (is_false (get "assembled" payload))
        (required "assembled=false нельзя материализовать")
    raise_if (not (is_this_text protocol_id (get "protocol_id" payload)))
        (required "protocol_id снимка и payload должны совпадать")
    raise_if (starts_with protocol_id "placeholder-") (required "placeholder protocol_id запрещён")
    raise_if (not (is_this_text s.object_id (get "object_id" payload)))
        (required "object_id payload и процесса расходятся")
    raise_if (ltb (version_of (get "version" payload)) 1)
        (required "version протокола должен быть целым >= 1")
    raise_if (not (is_this_text "PROTOCOL_FINALIZED" (get "status" payload)))
        (required "материализация только для PROTOCOL_FINALIZED")

  unfoldable pub max_protocol_version : Dict (Fields Float) → String → ℕ
  max_protocol_version [] object_id = 0
  max_protocol_version ((_, item) ∷ items) object_id =
      let highest = max_protocol_version items object_id in
      if is_this_text object_id (get "object_id" item)
      then max (version_of (get "version" item)) highest
      else highest

-- An audit event is `Event`, and a stored list of evidence groups is `Evidence`.
pub record MemoryProcessStore (Float Event Evidence : Type 0) : Type 0 where
  pub rows : Dict ProcessSnapshot
  pub findings : Dict (Dict (Finding Float))
  pub audit : Dict (List Event)
  pub protocols : Dict (Fields Float)
  pub full_protocols : Dict (Fields Float)
  pub outbox : Outbox
  pub evidence : Dict Evidence

abbrev pub values_of {ℓ} : {V : Type ℓ} → Dict V → List V
values_of [] = []
values_of ((_, v) ∷ d) = v ∷ values_of d

abbrev pub or_empty {ℓ} : {V : Type ℓ} → Option (Dict V) → Dict V
or_empty none = []
or_empty (some d) = d

module _ {Float : Type 0} where
  -- The loop that fills the bucket.
  bucket_of : List (Finding Float) → Dict (Finding Float) → Dict (Finding Float)
  bucket_of [] bucket = bucket
  bucket_of (f ∷ fs) bucket = bucket_of fs (insert (finding_key f) f bucket)

module _ {Float Event Evidence : Type 0} where
  unfoldable pub save :
      ProcessSnapshot
      → MemoryProcessStore Float Event Evidence
      → Result StoreError (MemoryProcessStore Float Event Evidence)
  unfolding validate_snapshot
  save s store = do
    validate_snapshot s
    ok (record store { rows = insert s.process_id s store.rows })

  unfoldable pub save_finding :
      String
      → Finding Float
      → MemoryProcessStore Float Event Evidence
      → MemoryProcessStore Float Event Evidence
  save_finding process_id f store = record store {
    findings =
        insert process_id (insert (finding_key f) f (or_empty (lookup process_id store.findings)))
          store.findings;
  }

  unfoldable pub load_findings :
      String → MemoryProcessStore Float Event Evidence → List (Finding Float)
  load_findings process_id store = values_of (or_empty (lookup process_id store.findings))

  unfoldable pub replace_findings :
      String
      → List (Finding Float)
      → MemoryProcessStore Float Event Evidence
      → MemoryProcessStore Float Event Evidence
  unfolding bucket_of
  replace_findings process_id fs store = record store {
    findings = insert process_id (bucket_of fs []) store.findings;
  }

  unfoldable pub next_protocol_version : String → MemoryProcessStore Float Event Evidence → ℕ
  next_protocol_version object_id store = max_protocol_version store.protocols object_id + 1

  -- As the code does, the full documents are left.
  unfoldable pub clear :
      MemoryProcessStore Float Event Evidence → MemoryProcessStore Float Event Evidence
  clear store = record store {
    rows = [];
    findings = [];
    audit = [];
    protocols = [];
    outbox = [];
    evidence = [];
  }
