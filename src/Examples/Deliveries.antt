-- ===== src/Examples/Deliveries.antt =====
-- Runs of backend/src/kontur/infrastructure/outbox.py and inbox.py. A body is its own digest here.
use kontur.Prelude.{
  ℕ, ◌≤◌, ◌*◌, ◌+◌, String, ◌≡◌, refl, true, false, Option, none, some, [], ◌∷◌, any, Result, ok,
  if◌then◌else◌,
}
use kontur.Prelude.Text.{strip}
use kontur.Outbox.{
  OutboxStatus, pending, delivered, OutboxItem, OutboxRow, Outbox, OutboxError, row_from_mapping,
  is_eligible, comes_first, leased, claim_memory, RinResult, sent, relay_once_memory,
}
use kontur.Outbox.Rows.{IsKeyed, budget, AllKept}
use kontur.Outbox.Claim.{IsClaim, claim_memory_lem}
use kontur.Outbox.Relay.{tries, relay_once_memory_lem, relay_outcome}
use kontur.Outbox.Tries.{tries_of, tries_are_bounded}
use kontur.Inbox.{
  BrokerDelivery, Inbox, has_event, received_row, delivery_error, classify_inbox_delivery,
  persist_inbox_delivery, settle_inbox_delivery,
}
use kontur.Inbox.Effect.{IsSound, persist-IsSound, ack_is_recorded}
use kontur.Prelude.Text.{strip, lacks_text}

abbrev waiting : OutboxItem
waiting = record {
  id = "outbox-p1";
  process_id = "1";
  protocol_id = "p1";
  payload_sha256 = "d1";
  event_id = "rin-p1";
  status = pending;
  attempts = 0;
  available_at = 5;
  last_error = none;
}

abbrev later : OutboxItem
later = record waiting { id = "outbox-p2"; protocol_id = "p2"; available_at = 6 }

abbrev outbox : Outbox
outbox = later ∷ waiting ∷ []

abbrev claimed : Outbox
claimed = later ∷ leased 10 waiting ∷ []

-- Every body is "d1", the broker takes it, and the outside system has received it.
abbrev stored : String → Option String
stored protocol_id = some "d1"

abbrev same : String → String
same body = body

abbrev published : OutboxRow → String → Option String
published row body = none

abbrev received_there : String → String → RinResult
received_there body event = record { status = sent; detail = ""; retryable = false }

claim_runs : claim_memory 10 outbox ≡ some (row_from_mapping (leased 10 waiting), claimed)
unfolding claim_memory is_eligible comes_first
claim_runs = refl

claim_memory_lem_example :
    (item : OutboxItem) × IsClaim 10 outbox (row_from_mapping (leased 10 waiting)) claimed item
claim_memory_lem_example = claim_memory_lem 10 outbox ((refl, tt), (tt, tt)) claim_runs

abbrev relay : ℕ → Outbox → Result OutboxError (Option OutboxStatus) × Outbox
relay = relay_once_memory String stored same published received_there

relay_once_memory_lem_example :
    (budget (relay 10 outbox).1 + (if any (is_eligible 10) outbox then 1 else 0) ≡ 8)
    × AllKept outbox (relay 10 outbox).1
    × IsKeyed (relay 10 outbox).1
relay_once_memory_lem_example =
    relay_once_memory_lem stored same published received_there 10 outbox ((refl, tt), (tt, tt))

tries_are_bounded_example :
    ((key : String)
      → tries_of stored same published received_there key (10 ∷ 20 ∷ 100 ∷ []) outbox ≤ 4)
    × (tries stored same published received_there (10 ∷ 20 ∷ 100 ∷ []) outbox ≤ 4 * 2)
tries_are_bounded_example =
    tries_are_bounded stored same published received_there (10 ∷ 20 ∷ 100 ∷ []) outbox
      ((refl, tt), (tt, tt))

relay_outcome_example : (relay 10 outbox).0 ≡ ok (some delivered)
unfolding strip
relay_outcome_example =
    relay_outcome stored same published received_there 10 outbox ((refl, tt), (tt, tt)) claim_runs
      {body = "d1"} refl

abbrev delivery : BrokerDelivery String
delivery = record {
  event_id = "rin-p1";
  process_id = "1";
  protocol_id = "p1";
  payload_sha256 = " d1 ";
  body = "d1";
  redelivery_count = 1;
  delivery_tag = "7";
}

abbrev digest_of : String → Option String
digest_of body = some body

abbrev recorded : Inbox
recorded = received_row String digest_of same delivery ∷ []

persist-IsSound_example : IsSound (persist_inbox_delivery String digest_of same false delivery []).1
persist-IsSound_example = persist-IsSound digest_of same false delivery [] tt

ack_is_recorded_example :
    has_event "rin-p1" (settle_inbox_delivery String digest_of same false delivery []).1 ≡ true
unfolding settle_inbox_delivery persist_inbox_delivery classify_inbox_delivery delivery_error strip
    lacks_text
ack_is_recorded_example = ack_is_recorded digest_of same false delivery [] refl
