-- ===== src/Outbox.antt =====
-- The outbox of infrastructure/outbox.py with the store in memory: one row per protocol, a claim, a
-- try, and what is made of its outcome. Moments and delays are in seconds.

pub mod Rows
pub mod Claim
pub mod Marks
pub mod Relay
pub mod Tries
use kontur.Prelude.{
  ℕ, ◌+◌, ◌-◌, Bool, true, false, not, ◌&&◌, ◌||◌, Option, none, some, String, List, [], ◌∷◌,
  get_elem?, any, select, Result, ok, err, ◌>>=◌, ◌>>◌, raise_if, ◌==◌, ltb, leb, nat_eq,
  if◌then◌else◌,
}
use kontur.Prelude.{String_eq, ℕ_eq, or_raise}
use kontur.Prelude.Text.{strip}
use Prim.Native.String.{compare}
use text.Mathlib.Text.{is_lt}

-- The texts of the column `status`.
pub data OutboxStatus : Type 0 where
  pending delivering delivered failed_terminal : OutboxStatus

pub record OutboxItem : Type 0 where
  pub id : String
  pub process_id : String
  pub protocol_id : String
  pub payload_sha256 : String
  pub event_id : String
  pub status : OutboxStatus
  pub attempts : ℕ
  pub available_at : ℕ
  pub last_error : Option String

pub record OutboxRow : Type 0 where
  pub id : String
  pub process_id : String
  pub protocol_id : String
  pub event_id : String
  pub payload_sha256 : String
  pub attempts : ℕ

-- `store._outbox`, a dictionary from `protocol_id`, in its order
abbrev pub Outbox : Type 0
Outbox = List OutboxItem

abbrev pub retry_seconds : List ℕ
retry_seconds = 60 ∷ 300 ∷ 900 ∷ []

abbrev pub lease_seconds : ℕ
lease_seconds = 30

abbrev pub max_attempts : ℕ
max_attempts = 4

-- `LookupError`, `ValueError` and `IndexError`
pub data OutboxError : Type 0 where
  lookup_error : String → OutboxError
  value_error : String → OutboxError
  index_error : OutboxError

unfoldable pub retry_delay : ℕ → Result OutboxError (Option ℕ)
retry_delay attempts = do
  raise_if (ltb attempts 1) (value_error "attempts")
  if leb max_attempts attempts
      then ok none
      else do delay ← or_raise (get_elem? retry_seconds (attempts - 1)) index_error; ok (some delay)

abbrev pub lease_until : ℕ → ℕ
lease_until now = now + lease_seconds

abbrev pub row_from_mapping : OutboxItem → OutboxRow
row_from_mapping i = record {
  id = i.id;
  process_id = i.process_id;
  protocol_id = i.protocol_id;
  event_id = i.event_id;
  payload_sha256 = strip i.payload_sha256;
  attempts = i.attempts;
}

abbrev pub is_waiting : OutboxStatus → Bool
is_waiting pending = true
is_waiting delivering = true
is_waiting delivered = false
is_waiting failed_terminal = false

unfoldable pub is_eligible : ℕ → OutboxItem → Bool
is_eligible now i =
    is_waiting i.status && not (ltb now i.available_at || leb max_attempts i.attempts)

-- The order of the pairs `(available_at, protocol_id)`: is the first no later than the second?
unfoldable pub comes_first : OutboxItem → OutboxItem → Bool
comes_first i j =
    ltb i.available_at j.available_at
    || nat_eq i.available_at j.available_at && not (is_lt (compare j.protocol_id i.protocol_id))

abbrev pub insert_in_order : OutboxItem → List OutboxItem → List OutboxItem
insert_in_order i [] = i ∷ []
insert_in_order i (j ∷ js) =
    let rest = insert_in_order i js in if comes_first i j then i ∷ j ∷ js else j ∷ rest

abbrev pub sorted : List OutboxItem → List OutboxItem
sorted [] = []
sorted (i ∷ is) = insert_in_order i (sorted is)

-- The first row that passes the test is changed in place.
abbrev pub change_first : (OutboxItem → Bool) → (OutboxItem → OutboxItem) → Outbox → Outbox
change_first p f [] = []
change_first p f (i ∷ is) = let rest = change_first p f is in if p i then f i ∷ is else i ∷ rest

abbrev pub leased : ℕ → OutboxItem → OutboxItem
leased now i = record i {
  status = delivering;
  attempts = i.attempts + 1;
  available_at = lease_until now;
}

unfoldable pub claim_memory : ℕ → Outbox → Option (OutboxRow × Outbox)
unfolding is_eligible
claim_memory now outbox = claim_of (sorted (select (is_eligible now) outbox))
  where
    claim_of : List OutboxItem → Option (OutboxRow × Outbox)
    claim_of [] = none
    claim_of (item ∷ _) = some (
      row_from_mapping (leased now item),
      change_first (λ i. i.protocol_id == item.protocol_id) (leased now) outbox,
    )

abbrev pub is_delivering : OutboxStatus → Bool
is_delivering delivering = true
is_delivering _ = false

-- `item["id"] == id and item["status"] == "DELIVERING"`
abbrev pub is_claimed : String → OutboxItem → Bool
is_claimed id i = i.id == id && is_delivering i.status

unfoldable pub mark_memory_delivered : String → Outbox → Result OutboxError Outbox
mark_memory_delivered id outbox =
    if any (is_claimed id) outbox
    then ok (
        change_first (is_claimed id) (λ i. record i { status = delivered; last_error = none })
          outbox)
    else err (lookup_error id)

abbrev pub status_after : Option ℕ → OutboxStatus
status_after none = failed_terminal
status_after (some _) = pending

abbrev pub failed : ℕ → String → Option ℕ → OutboxItem → OutboxItem
failed now error none i = record i { status = failed_terminal; last_error = some error }
failed now error (some delay) i = record i {
  status = pending;
  available_at = now + delay;
  last_error = some error;
}

unfoldable pub mark_memory_failed :
    OutboxRow → ℕ → String → Bool → Outbox → Result OutboxError (OutboxStatus × Outbox)
unfolding retry_delay
mark_memory_failed row now error terminal outbox = do
  delay ← if terminal then ok none else retry_delay row.attempts
  if any (is_claimed row.id) outbox
      then ok (status_after delay, change_first (is_claimed row.id) (failed now error delay) outbox)
      else err (lookup_error row.id)

-- The answer of the delivery to the outside system.
pub data RinStatus : Type 0 where
  local_only sent send_failed send_refused : RinStatus

pub record RinResult : Type 0 where
  pub status : RinStatus
  pub detail : String
  pub retryable : Bool

-- What the relay is given: `stored_protocol`, the canonical text of a stored protocol; `digest`, its
-- SHA-256; `publish`, the broker, with the text of its `PublishError`; `deliver`, the outside system.
module _ (Body : Type 0) (stored_protocol : String → Option Body) (digest : Body → String)
    (publish : OutboxRow → Body → Option String) (deliver : Body → String → RinResult) where
  unfoldable pub publish_row :
      OutboxRow → Body → ℕ → Outbox → Result OutboxError (OutboxStatus × Outbox)
  publish_row row body now outbox =
      if digest body == row.payload_sha256
      then elim (publish row body) [
        | some error ↦ mark_memory_failed row now error false outbox
        | none ↦ after (deliver body row.event_id)
      ]
      else mark_memory_failed row now "payload_sha256 mismatch" true outbox
    where
      delivered_now : Result OutboxError (OutboxStatus × Outbox)
      delivered_now = do
        after_mark ← mark_memory_delivered row.id outbox
        ok (delivered, after_mark)

      after_status : RinStatus → RinResult → Result OutboxError (OutboxStatus × Outbox)
      after_status send_refused rin = mark_memory_failed row now rin.detail true outbox
      after_status send_failed rin =
          mark_memory_failed row now rin.detail (not rin.retryable) outbox
      after_status local_only rin = delivered_now
      after_status sent rin = delivered_now

      after : RinResult → Result OutboxError (OutboxStatus × Outbox)
      after rin = after_status rin.status rin

  -- What an outcome leaves: where the rest raises, the outbox is as the claim has left it.
  abbrev pub settled :
      Outbox
      → Result OutboxError (OutboxStatus × Outbox)
      → Result OutboxError (Option OutboxStatus) × Outbox
  settled claimed (ok (status, after)) = (ok (some status), after)
  settled claimed (err e) = (err e, claimed)

  abbrev pub relay_claimed :
      OutboxRow → ℕ → Outbox → Option Body → Result OutboxError (Option OutboxStatus) × Outbox
  relay_claimed row now claimed none = (err (lookup_error row.protocol_id), claimed)
  relay_claimed row now claimed (some body) = settled claimed (publish_row row body now claimed)

  abbrev pub relay_from :
      ℕ → Outbox → Option (OutboxRow × Outbox) → Result OutboxError (Option OutboxStatus) × Outbox
  relay_from now outbox none = (ok none, outbox)
  relay_from now outbox (some (row, claimed)) =
      relay_claimed row now claimed (stored_protocol row.protocol_id)

  unfoldable pub relay_once_memory : ℕ → Outbox → Result OutboxError (Option OutboxStatus) × Outbox
  relay_once_memory now outbox = relay_from now outbox (claim_memory now outbox)
