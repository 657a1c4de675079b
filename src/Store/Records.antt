-- ===== src/Store/Records.antt =====
-- The rest of the store in memory: the log, the groups of evidence, the files, and the lookups of
-- snapshots and protocols.
use kontur.Prelude.{
  ℕ, Bool, not, ◌&&◌, Option, none, some, is_some, String, List, [], ◌∷◌, ◌++◌, map, find, Result,
  ok, ◌>>◌, raise_if, if◌then◌else◌,
}
use kontur.Prelude.{String_eq}
use Prim.Native.String.{compare}
use text.Mathlib.Text.{is_lt}
use kontur.Prelude.Floats.{Floats}
use kontur.Prelude.Text.{strip}
use kontur.Prelude.Json.{Json, Fields, get}
use kontur.Prelude.Dict.{lookup, insert}
use kontur.Domain.Models.{EvidenceGroup}
use kontur.Storage.Values.{DecodeError}
use kontur.Storage.Evidence.{Casts, array, as_list_of}
use kontur.Storage.Groups.{encode_group, decode_group}
use kontur.Store.{
  ProcessSnapshot, MemoryProcessStore, StoreError, key_error, is_this_text, is_this_number,
}

abbrev or_nil : {A : Type 0} → Option (List A) → List A
or_nil none = []
or_nil (some xs) = xs

-- `sorted` by a text; of equal texts the first comes first.
abbrev insert_by : {A : Type 0} → (A → String) → A → List A → List A
insert_by key a [] = a ∷ []
insert_by key a (b ∷ bs) =
    let rest = insert_by key a bs in
    if is_lt (compare (key b) (key a)) then b ∷ rest else a ∷ b ∷ bs

abbrev sorted_by : {A : Type 0} → (A → String) → List A → List A
sorted_by key [] = []
sorted_by key (a ∷ as') = insert_by key a (sorted_by key as')

abbrev join_all : {A : Type 0} → List (List A) → List A
join_all [] = []
join_all (xs ∷ xss) = xs ++ join_all xss

abbrev files_of : String × ProcessSnapshot → List (String × String × String)
files_of (_, s) =
    map (λ item. (s.process_id, item.file_id, strip item.file_hash))
      (sorted_by (λ item. item.file_id) s.files)

module _ {Float : Type 0} where
  -- The object's protocol with the version.
  abbrev has_version : String → ℕ → String × Fields Float → Bool
  has_version object_id version (_, stored) =
      is_this_text object_id (get "object_id" stored)
      && is_this_number version (get "version" stored)

  abbrev cloned :
      (Fields Float → Fields Float) → Option (String × Fields Float) → Option (Fields Float)
  cloned clone none = none
  cloned clone (some (_, stored)) = some (clone stored)

module _ {Float Event Evidence : Type 0} where
  unfoldable pub load : String → MemoryProcessStore Float Event Evidence → Option ProcessSnapshot
  load process_id store = lookup process_id store.rows

  -- The event is the actor, the action and its payload.
  unfoldable pub save_audit_event :
      String
      → Event
      → MemoryProcessStore Float Event Evidence
      → MemoryProcessStore Float Event Evidence
  save_audit_event process_id event store = record store {
    audit = insert process_id (or_nil (lookup process_id store.audit) ++ event ∷ []) store.audit;
  }

  unfoldable pub load_audit : String → MemoryProcessStore Float Event Evidence → List Event
  load_audit process_id store = or_nil (lookup process_id store.audit)

  unfoldable pub list_all_files :
      MemoryProcessStore Float Event Evidence → List (String × String × String)
  list_all_files store = join_all (map files_of (sorted_by (λ row. row.0) store.rows))

  unfoldable pub load_protocol_version :
      (Fields Float → Fields Float)
      → String
      → ℕ
      → MemoryProcessStore Float Event Evidence
      → Option (Fields Float)
  load_protocol_version clone object_id version store =
      cloned clone (find (has_version object_id version) store.protocols)

  unfoldable pub load_full_protocol :
      (Fields Float → Fields Float)
      → String
      → MemoryProcessStore Float Event Evidence
      → Option (Fields Float)
  load_full_protocol clone protocol_id store = elim (lookup protocol_id store.full_protocols) [
    | none ↦ none
    | some d ↦ some (clone d)
  ]

  unfoldable pub load_full_protocol_version :
      (Fields Float → Fields Float)
      → String
      → ℕ
      → MemoryProcessStore Float Event Evidence
      → Option (Fields Float)
  load_full_protocol_version clone object_id version store =
      cloned clone (find (has_version object_id version) store.full_protocols)

module _ (F : Floats) (casts : Casts (F.Float)) {Evidence : Type 0}
    (loads : Evidence → Json (F.Float)) where
  open F use {Float}

  abbrev pub decoded : Option Evidence → Result DecodeError (List (EvidenceGroup Float))
  decoded none = ok []
  decoded (some raw) = as_list_of (decode_group F casts) (loads raw)

-- `dumps` is the JSON text of an array, and `loads` reads it.
module _ (F : Floats) (casts : Casts (F.Float)) {Event Evidence : Type 0}
    (dumps : Json (F.Float) → Evidence) (loads : Evidence → Json (F.Float)) where
  open F use {Float}

  unfoldable pub save_evidence_groups :
      String
      → List (EvidenceGroup Float)
      → MemoryProcessStore Float Event Evidence
      → Result StoreError (MemoryProcessStore Float Event Evidence)
  unfolding encode_group
  save_evidence_groups process_id groups store = do
    raise_if (not (is_some (lookup process_id store.rows))) (key_error process_id)
    ok (record store {
      evidence = insert process_id (dumps (array (encode_group F casts) groups)) store.evidence;
    })

  unfoldable pub load_evidence_groups :
      String
      → MemoryProcessStore Float Event Evidence
      → Result DecodeError (List (EvidenceGroup Float))
  unfolding decode_group
  load_evidence_groups process_id store = decoded F casts loads (lookup process_id store.evidence)
