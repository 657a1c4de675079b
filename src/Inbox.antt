-- ===== src/Inbox.antt =====
-- The inbox of infrastructure/inbox.py: what is made of a delivery of the broker, the transaction, and
-- the answer to the broker.
pub mod Effect
use kontur.Prelude.{
  ℕ, ◌+◌, ◌-◌, min, Bool, true, false, not, ◌&&◌, ◌||◌, Option, none, some, String, List, [], ◌∷◌,
  ◌++◌, any, Result, ok, err, ◌>>◌, raise_if, ◌==◌, ltb, if◌then◌else◌,
}
use kontur.Prelude.{String_eq}
use kontur.Prelude.Text.{lacks_text, strip}
use kontur.Domain.Models.Checks.{is_file_hash}
use kontur.Outbox.{max_attempts}

pub record BrokerDelivery (Body : Type 0) : Type 0 where
  pub event_id : String
  pub process_id : String
  pub protocol_id : String
  pub payload_sha256 : String
  pub body : Body
  pub redelivery_count : ℕ
  pub delivery_tag : String

pub data InboxStatus : Type 0 where
  received poison : InboxStatus

pub record InboxRow : Type 0 where
  pub event_id : String
  pub process_id : String
  pub protocol_id : String
  pub payload_sha256 : String
  pub status : InboxStatus
  pub delivery_attempts : ℕ
  pub last_error : Option String

-- The words "ack", "requeue" and "dead_letter".
pub data Action : Type 0 where
  ack requeue dead_letter : Action

pub data InboxError : Type 0 where
  value_error : InboxError
  database_error : InboxError

-- A header: absent, an integer, a text, or anything else.
pub data ℤ : Type 0 where
  pos negsuc : ℕ → ℤ

pub data Header : Type 0 where
  absent other : Header
  integer : ℤ → Header
  text : String → Header

abbrev not_negative : ℤ → ℕ
not_negative (pos n) = n
not_negative (negsuc _) = 0

-- `int_of_text` is Python's `int` of a text.
unfoldable pub delivery_attempt : (String → Option ℤ) → Header → ℕ
delivery_attempt int_of_text absent = 1
delivery_attempt int_of_text other = 1
delivery_attempt int_of_text (integer n) = not_negative n + 1
delivery_attempt int_of_text (text s) = elim (int_of_text s) [
  | none ↦ 1
  | some n ↦ not_negative n + 1
]

abbrev pub zeros : String
zeros = "0000000000000000000000000000000000000000000000000000000000000000"

-- The test is the one of a file's digest: 64 characters, each a digit or one of a to f.
unfoldable pub usable_sha : (String → String) → String → String
usable_sha lower value =
    let candidate = lower (strip value) in if is_file_hash candidate then candidate else zeros

-- The table of the database, its rows in the order of their insertion.
abbrev pub Inbox : Type 0
Inbox = List InboxRow

abbrev pub has_event : String → Inbox → Bool
has_event e = any (λ row. row.event_id == e)

-- `INSERT … ON CONFLICT (event_id) DO NOTHING`
unfoldable pub insert_inbox : InboxRow → Inbox → Inbox
insert_inbox row inbox = if has_event row.event_id inbox then inbox else inbox ++ row ∷ []

abbrev pub insert_optional : Option InboxRow → Inbox → Inbox
insert_optional none inbox = inbox
insert_optional (some row) inbox = insert_inbox row inbox

-- What the worker tells the broker.
pub data Settlement : Type 0 where
  acked nack_requeue nack_dead_letter : Settlement

pub data Frame : Type 0 where
  ack_frame : (tag : String) → Frame
  nack_frame : (tag : String) (again : Bool) → Frame

-- `payload_digest` answers with nothing where the body is no protocol; `lower` is `str.lower`.
module _ (Body : Type 0) (payload_digest : Body → Option String) (lower : String → String) where
  unfoldable pub delivery_error : BrokerDelivery Body → Option String
  delivery_error d =
      if lacks_text d.event_id
      then some "missing event_id"
      else if lacks_text d.process_id || lacks_text d.protocol_id
      then some "missing process/protocol"
      else elim (payload_digest d.body) [
        | none ↦ some "invalid protocol payload"
        | some digest ↦
            if digest == lower (strip d.payload_sha256)
            then none
            else some "payload_sha256 mismatch"
      ]

  unfoldable pub received_row : BrokerDelivery Body → InboxRow
  received_row d = record {
    event_id = d.event_id;
    process_id = d.process_id;
    protocol_id = d.protocol_id;
    payload_sha256 = d.payload_sha256;
    status = received;
    delivery_attempts = min d.redelivery_count max_attempts;
    last_error = none;
  }

  unfoldable pub poison_row : BrokerDelivery Body → String → InboxRow
  poison_row d error = record {
    event_id = d.event_id;
    process_id = d.process_id;
    protocol_id = d.protocol_id;
    payload_sha256 = usable_sha lower d.payload_sha256;
    status = poison;
    delivery_attempts = max_attempts;
    last_error = some error;
  }

  abbrev classify_error : BrokerDelivery Body → String → Action × Option InboxRow
  classify_error d error =
      if ltb d.redelivery_count max_attempts
      then (requeue, none)
      else if not (
          not (lacks_text d.event_id)
          && (not (lacks_text d.process_id) && not (lacks_text d.protocol_id)))
      then (dead_letter, none)
      else (dead_letter, some (poison_row d error))

  unfoldable pub classify_inbox_delivery :
      BrokerDelivery Body → Result InboxError (Action × Option InboxRow)
  unfolding delivery_error received_row poison_row
  classify_inbox_delivery d = do
    raise_if (ltb d.redelivery_count 1) value_error
    ok (elim (delivery_error d) [
      | none ↦ (ack, some (received_row d))
      | some error ↦ classify_error d error
    ])

  -- What the transaction leaves in the table and tells the broker. `broken` says whether a statement
  -- of the database raises, its commit included.
  abbrev pub settle_action : Action → Option InboxRow → Inbox → Settlement × Inbox
  settle_action requeue row inbox = (nack_requeue, inbox)
  settle_action dead_letter none inbox = (nack_dead_letter, inbox)
  settle_action dead_letter (some row) inbox = (nack_dead_letter, insert_inbox row inbox)
  settle_action ack row inbox = (acked, insert_optional row inbox)

  unfoldable pub persist_inbox_delivery :
      Bool → BrokerDelivery Body → Inbox → Result InboxError Settlement × Inbox
  unfolding classify_inbox_delivery
  persist_inbox_delivery broken d inbox = persisted (classify_inbox_delivery d)
    where
      committed : Settlement × Inbox → Result InboxError Settlement × Inbox
      committed (s, after) = if broken then (err database_error, inbox) else (ok s, after)

      persisted :
          Result InboxError (Action × Option InboxRow) → Result InboxError Settlement × Inbox
      persisted (err e) = (err e, inbox)
      persisted (ok (action, row)) = committed (settle_action action row inbox)

  abbrev frame_of : String → Settlement → Frame
  frame_of tag acked = ack_frame tag
  frame_of tag nack_requeue = nack_frame tag true
  frame_of tag nack_dead_letter = nack_frame tag false

  abbrev pub with_frames :
      String
      → Result InboxError Settlement × Inbox
      → Result InboxError Settlement × Inbox × List Frame
  with_frames tag (err e, after) = (err e, after, [])
  with_frames tag (ok s, after) = (ok s, after, frame_of tag s ∷ [])

  -- The answer, the table, and the frames that the broker gets.
  unfoldable pub settle_inbox_delivery :
      Bool → BrokerDelivery Body → Inbox → Result InboxError Settlement × Inbox × List Frame
  settle_inbox_delivery broken d inbox =
      with_frames d.delivery_tag (persist_inbox_delivery broken d inbox)
