-- ===== src/Store/Guards.antt =====
-- What the guards before a materialization ask of the snapshot and of the document.
use kontur.Prelude.{
  ◌≡◌, refl, Bool, true, false, not, ◌&&◌, Option, none, some, String, ok, is_ok, Result, err,
  raise_if, ◌>>◌, ltb, leb, ◌==◌, arith,
}
use kontur.Prelude.{String_eq}
use text.Mathlib.Text.{starts_with}
use kontur.Prelude.Json.{Json, Fields, get}
use kontur.Prelude.Text.{lacks_text}
use kontur.Domain.Status.{ProcessState_eq, finalized, SyncState_eq}
use kontur.Store.{
  ProcessSnapshot, validate_snapshot, reject_unsafe_protocol_payload, is_this_text, is_false,
  version_of,
}

-- A text that is there and not blank.
abbrev has_text : Option String → Bool
has_text none = false
has_text (some s) = not (lacks_text s)

-- A field that is false, and nothing else.
abbrev is_refused : {Float : Type 0} → Option (Json Float) → Bool
is_refused (some (Json.bool b)) = not b
is_refused _ = false

-- The snapshot names its process, its object and its protocol, is finalized by somebody, and its counts are
-- within their limits.
abbrev pub is_snapshot : ProcessSnapshot → Bool
is_snapshot s =
    s.process_state == finalized
    && (not (lacks_text s.process_id)
        && (not (lacks_text s.object_id)
            && (has_text s.finalized_by
                && (has_text s.protocol_id && (leb s.parse_attempts 8 && leb s.sync_attempts 4)))))

-- The document is a finalized protocol, no placeholder, with the identifiers of the snapshot and a version.
abbrev pub is_document : {Float : Type 0} → String → ProcessSnapshot → Fields Float → Bool
is_document protocol_id s payload =
    not (is_this_text "internal_placeholder" (get "kind" payload))
    && (not (is_refused (get "assembled" payload))
        && (is_this_text protocol_id (get "protocol_id" payload)
            && (not (starts_with protocol_id "placeholder-")
                && (is_this_text s.object_id (get "object_id" payload)
                    && (leb 1 (version_of (get "version" payload))
                        && is_this_text "PROTOCOL_FINALIZED" (get "status" payload))))))

-- A guard lets through what its condition lets through and the rest accepts.
pub guard :
    {E B : Type 0} (b c : Bool) (e : E) (r : Result E B) {x : Bool}
    → not b ≡ c
    → is_ok r ≡ x
    → is_ok (raise_if b e >> r) ≡ (c && x)
guard true false e r h h' = refl
guard true true e r h h' = ground (arith, h)
guard false true e r h h' = h'
guard false false e r h h' = ground (arith, h)

last_guard : {E : Type 0} (b c : Bool) (e : E) → not b ≡ c → is_ok (raise_if b e) ≡ c
last_guard true c e h = h
last_guard false c e h = h

pub not-not : (b : Bool) → not (not b) ≡ b
not-not true = refl
not-not false = refl

refused_lem : {Float : Type 0} (v : Option (Json Float)) → not (is_false v) ≡ not (is_refused v)
refused_lem none = refl
refused_lem (some (Json.bool true)) = refl
refused_lem (some (Json.bool false)) = refl
refused_lem (some _) = refl

pub reject_unsafe_protocol_payload_iff :
    {Float : Type 0} (payload : Fields Float) (s : ProcessSnapshot) (protocol_id : String)
    → s.protocol_id ≡ some protocol_id
    → is_ok (reject_unsafe_protocol_payload payload s) ≡ (
        s.process_state == finalized
        && (not (lacks_text protocol_id) && is_document protocol_id s payload))
unfolding reject_unsafe_protocol_payload
reject_unsafe_protocol_payload_iff payload s protocol_id e =
    guard (not (s.process_state == finalized)) _ _ _ (not-not _) (
      rw e (
        guard (lacks_text protocol_id) _ _ _ refl (
          guard (is_this_text "internal_placeholder" (get "kind" payload)) _ _ _ refl (
            guard (is_false (get "assembled" payload)) _ _ _ (refused_lem _) (
              guard (not (is_this_text protocol_id (get "protocol_id" payload))) _ _ _ (not-not _) (
                guard (starts_with protocol_id "placeholder-") _ _ _ refl (
                  guard (not (is_this_text s.object_id (get "object_id" payload))) _ _ _ (not-not _)
                    (guard (ltb (version_of (get "version" payload)) 1) _ _ _ (ground arith) (
                      last_guard (not (is_this_text "PROTOCOL_FINALIZED" (get "status" payload))) _
                        _ (not-not _))))))))))

pub validate_snapshot_iff :
    (s : ProcessSnapshot)
    → s.process_state ≡ finalized
    → is_ok (validate_snapshot s) ≡ is_snapshot s
unfolding validate_snapshot
validate_snapshot_iff s e = ground (arith, e)

pub is_ok-then :
    {E B : Type 0} (r : Result E (Unit {0})) (rest : Result E B)
    → is_ok (r >> rest) ≡ (is_ok r && is_ok rest)
is_ok-then (ok tt) rest = refl
is_ok-then (err e) rest = refl
