-- ===== src/Examples/Exchanges.antt =====
-- A run of the store with the relay and the inbox: a protocol is materialized, published and taken.
use kontur.Prelude.{ℕ, String, ◌≡◌, refl, false, none, some, Option, [], ◌∷◌, ok, arith}
use kontur.Prelude.Json.{Json, Fields, end, field, get, put, pop}
use kontur.Prelude.Dict.{lookup, insert}
use kontur.Prelude.Text.{lacks_text, strip, strip-strip}
use kontur.Protocol.Wire.{protocol_for_rin, clean_section, clean_rows}
use kontur.Outbox.{
  OutboxItem, OutboxRow, RinStatus, RinResult, delivered, leased, claim_memory, is_eligible,
  comes_first,
}
use kontur.Inbox.{acked, persist_inbox_delivery}
use kontur.Store.{
  MemoryProcessStore, validate_snapshot, save, reject_unsafe_protocol_payload, outbox_event_id,
}
use kontur.Store.Materialize.{new_item, put_item, materialize_finalized, load_protocol}
use kontur.Exchange.Registry.{SpecStep, change_of, view, view-SpecStep}
use kontur.Exchange.{
  Step, Reached, starts, goes_on, materializes, payload_digest, delivered_message, relay_store,
  initial,
}
use kontur.Exchange.Intact.{IsIntact, Reached-IsIntact}
use kontur.Exchange.Accepted.{turn_is_answered, published_is_acked}
use kontur.Examples.Stores.{snapshot, document}

-- Here an object is known by its protocol.
abbrev id_of : Option (Json ℕ) → String
id_of (some (Json.text t)) = t
id_of _ = ""

abbrev canonical : Fields ℕ → String
canonical d = id_of (get "protocol_id" d)

abbrev loads : String → Option (Fields ℕ)
loads t = some (field "protocol_id" (Json.text t) end)

abbrev clone : Fields ℕ → Fields ℕ
clone d = field "protocol_id" (Json.text (canonical d)) end

abbrev lower : String → String
lower t = t

clone_keeps_text : (d : Fields ℕ) → canonical (clone d) ≡ canonical d
unfolding get
clone_keeps_text d = refl

abbrev item : OutboxItem
item = new_item "1" "protocol-1" "protocol-1" "rin-protocol-1" 9

abbrev after : MemoryProcessStore ℕ String String
after = record (initial canonical clone strip) {
  rows = ("1", snapshot) ∷ [];
  protocols = ("protocol-1", clone document) ∷ [];
  full_protocols = ("protocol-1", clone document) ∷ [];
  outbox = item ∷ [];
}

materializing : Step canonical clone strip (initial canonical clone strip) after
unfolding materialize_finalized save validate_snapshot reject_unsafe_protocol_payload
    outbox_event_id put_item protocol_for_rin clean_section clean_rows get put pop lookup insert
    lacks_text strip
materializing = materializes snapshot document 9 refl

after-Reached : Reached canonical clone strip after
after-Reached = goes_on starts materializing

view-SpecStep_example :
    SpecStep
      (view {Event = String} {Evidence = String} canonical (initial canonical clone strip))
      (change_of canonical clone strip materializing)
      (view canonical after)
view-SpecStep_example = view-SpecStep canonical clone strip materializing

Reached-IsIntact_example : IsIntact canonical strip after
Reached-IsIntact_example = Reached-IsIntact canonical clone strip after after-Reached

abbrev row : OutboxRow
row = record {
  id = "outbox-protocol-1";
  process_id = "1";
  protocol_id = "protocol-1";
  event_id = "rin-protocol-1";
  payload_sha256 = "protocol-1";
  attempts = 1;
}

claim_of_after : claim_memory 10 after.outbox ≡ some (row, leased 10 item ∷ [])
unfolding claim_memory is_eligible comes_first strip
claim_of_after = refl

abbrev publish : OutboxRow → String → Option String
publish r text = none

abbrev deliver : String → String → RinResult
deliver text event_id = record { status = RinStatus.sent; detail = ""; retryable = false }

turn_is_answered_example :
    (stored : Fields ℕ) × (lookup "protocol-1" after.protocols ≡ some stored)
    × ((relay_store canonical clone strip publish deliver 10 after).0 ≡ ok (some delivered))
turn_is_answered_example =
    turn_is_answered canonical clone strip clone_keeps_text strip-strip publish deliver 10 after
      after-Reached claim_of_after

stored_there : load_protocol clone "protocol-1" after ≡ some (clone (clone document))
unfolding load_protocol lookup
stored_there = refl

published_is_acked_example :
    (persist_inbox_delivery String
      (payload_digest canonical clone strip loads)
      lower
      false
      (delivered_message "7" 1 row (canonical (clone (clone document))))
      []).0
    ≡ ok acked
published_is_acked_example =
    published_is_acked canonical clone strip clone_keeps_text strip-strip loads lower (λ d. refl)
      (λ t. refl) 10 after after-Reached claim_of_after stored_there "7" 1 [] (omega arith)
