-- ===== src/Inbox/Effect.antt =====
-- The effect of a delivery on the inbox, and the answer to the broker.
use kontur.Prelude.{
  ◌≤◌, ◌<◌, ◌≡◌, refl, sym, ◌≢◌, ◌↔◌, ◌⊎◌, inl, inr, Bool, true, false, ◌||◌, Option, none, is_some,
  String, eq_iff, [], ◌∷◌, ◌++◌, length, Result, ok, err, is_ok, ◌==◌, ltb, if◌then◌else◌,
  Bool-cases, Option-cases, arith,
}
use kontur.Prelude.{String_eq}
use kontur.Prelude.Text.{lacks_text}
use mathlib.Core.Path.{subst}
use kontur.Domain.Models.Checks.{is_file_hash}
use kontur.Outbox.{max_attempts}
use kontur.Inbox.{
  BrokerDelivery, received, poison, InboxRow, InboxError, ℤ, Header, absent, other, integer, text,
  delivery_attempt, zeros, usable_sha, Inbox, has_event, insert_inbox, Settlement, acked,
  nack_requeue, nack_dead_letter, ack_frame, delivery_error, received_row, poison_row,
  classify_inbox_delivery, persist_inbox_delivery, with_frames, settle_inbox_delivery,
}

-- The number of a try counts from one, whatever the header holds, so no delivery is refused for it.
delivery_attempt-le :
    (int_of_text : String → Option ℤ) (h : Header) → 1 ≤ delivery_attempt int_of_text h
unfolding delivery_attempt
delivery_attempt-le int_of_text absent = omega arith
delivery_attempt-le int_of_text other = omega arith
delivery_attempt-le int_of_text (integer n) = omega arith
delivery_attempt-le int_of_text (text s) = ground arith

zeros-IsFileHash : is_file_hash zeros ≡ true
unfolding is_file_hash
zeros-IsFileHash = refl

-- The digest that a poison row records is always 64 digits to the base 16, as the table demands.
usable_sha-IsFileHash :
    (lower : String → String) (value : String) → is_file_hash (usable_sha lower value) ≡ true
unfolding usable_sha
usable_sha-IsFileHash lower value = ground (arith, zeros-IsFileHash)

-- No event is in the table twice, a row has been tried one to four times, and it names an error
-- exactly if it is poison.
abbrev pub IsSoundRow : InboxRow → Type 0
IsSoundRow row =
    (1 ≤ row.delivery_attempts)
    × (row.delivery_attempts ≤ max_attempts)
    × (is_some row.last_error ≡ elim row.status [ received ↦ false | poison ↦ true ])

abbrev pub IsSound : Inbox → Type 0
IsSound [] = Unit
IsSound (row ∷ rows) = IsSoundRow row × (has_event row.event_id rows ≡ false) × IsSound rows

has_event-append :
    (e : String) (inbox : Inbox) (row : InboxRow)
    → has_event e (inbox ++ row ∷ []) ≡ (has_event e inbox || row.event_id == e)
has_event-append e [] row = ground arith
has_event-append e (r ∷ rs) row = ground (arith, has_event-append e rs row)

IsSound-append :
    (inbox : Inbox) (row : InboxRow)
    → IsSound inbox
    → IsSoundRow row
    → has_event row.event_id inbox ≡ false
    → IsSound (inbox ++ row ∷ [])
IsSound-append [] row sound ok_row new = (ok_row, refl, tt)
IsSound-append (r ∷ rs) row sound ok_row new = (
  sound.0,
  ground (
    arith,
    new,
    sound.1,
    has_event-append r.event_id rs row,
    eq_iff row.event_id r.event_id,
    eq_iff r.event_id row.event_id,
  ),
  IsSound-append rs row sound.2 ok_row (ground (arith, new)),
)

insert_inbox-IsSound :
    (row : InboxRow) (inbox : Inbox)
    → IsSound inbox
    → IsSoundRow row
    → IsSound (insert_inbox row inbox)
unfolding insert_inbox
insert_inbox-IsSound row inbox sound ok_row = elim (Bool-cases (has_event row.event_id inbox)) [
  | inl e ↦ rw e sound
  | inr e ↦ rw e (IsSound-append inbox row sound ok_row e)
]

has_event-insert_inbox :
    (row : InboxRow) (inbox : Inbox) → has_event row.event_id (insert_inbox row inbox) ≡ true
unfolding insert_inbox
has_event-insert_inbox row inbox =
    ground (arith, has_event-append row.event_id inbox row, eq_iff row.event_id row.event_id)

module _ {Body : Type 0} (payload_digest : Body → Option String) (lower : String → String) where
  abbrev persist : Bool → BrokerDelivery Body → Inbox → Result InboxError Settlement × Inbox
  persist = persist_inbox_delivery Body payload_digest lower

  abbrev problem : BrokerDelivery Body → Option String
  problem = delivery_error Body payload_digest lower

  -- The broker is told that a delivery is accepted exactly if it is valid, has a positive count, and
  -- the transaction has been committed.
  pub acked_iff :
      (broken : Bool) (d : BrokerDelivery Body) (inbox : Inbox)
      → ((persist broken d inbox).0 ≡ ok acked)
        ↔ ((problem d ≡ none) × (1 ≤ d.redelivery_count) × (broken ≡ false))
  unfolding persist_inbox_delivery classify_inbox_delivery
  acked_iff broken d inbox = ground arith

  -- The broker is asked for the delivery again exactly if that is in error, has a count of one to three,
  -- and the transaction does not fail.
  pub requeued_iff :
      (broken : Bool) (d : BrokerDelivery Body) (inbox : Inbox)
      → ((persist broken d inbox).0 ≡ ok nack_requeue) ↔ (
          (problem d ≢ none)
          × (1 ≤ d.redelivery_count)
          × (d.redelivery_count < max_attempts)
          × (broken ≡ false))
  unfolding persist_inbox_delivery classify_inbox_delivery
  requeued_iff broken d inbox = ground arith

  -- What is accepted is in the table.
  acked_is_recorded :
      (broken : Bool) (d : BrokerDelivery Body) (inbox : Inbox) {after : Inbox}
      → persist broken d inbox ≡ (ok acked, after)
      → has_event d.event_id after ≡ true
  unfolding persist_inbox_delivery classify_inbox_delivery received_row
  acked_is_recorded broken d inbox {after} h =
      ground (arith, h, has_event-insert_inbox (received_row Body payload_digest lower d) inbox)

  -- An event that is in the table changes nothing when it is delivered again.
  pub recorded_stays :
      (broken : Bool) (d : BrokerDelivery Body) (inbox : Inbox)
      → has_event d.event_id inbox ≡ true
      → (persist broken d inbox).1 ≡ inbox
  unfolding persist_inbox_delivery classify_inbox_delivery received_row poison_row insert_inbox
  recorded_stays broken d inbox h = ground (arith, h)

  -- Whatever raises leaves the table as it was.
  raising_rolls_back :
      (broken : Bool) (d : BrokerDelivery Body) (inbox : Inbox) {e : InboxError}
      → (persist broken d inbox).0 ≡ err e
      → (persist broken d inbox).1 ≡ inbox
  unfolding persist_inbox_delivery classify_inbox_delivery
  raising_rolls_back broken d inbox {e} h = ground (arith, h)

  -- The three tables that a delivery can leave.
  abbrev Leaves : BrokerDelivery Body → Inbox → Inbox → Type 0
  Leaves d inbox after =
      (after ≡ inbox)
      ⊎ ((1 ≤ d.redelivery_count)
          × (after ≡ insert_inbox (received_row Body payload_digest lower d) inbox))
      ⊎ ((e : String) × (after ≡ insert_inbox (poison_row Body payload_digest lower d e) inbox))

  persist-Leaves :
      (broken : Bool) (d : BrokerDelivery Body) (inbox : Inbox)
      → Leaves d inbox (persist broken d inbox).1
  unfolding persist_inbox_delivery classify_inbox_delivery
  persist-Leaves broken d inbox = elim (Option-cases (problem d)) [
    | inl e ↦ elim (Bool-cases (broken || ltb d.redelivery_count 1)) [
      | inl e' ↦ inl (ground (arith, e, e'))
      | inr e' ↦ inr (inl (ground (arith, e, e'), ground (arith, e, e')))
    ]
    | inr (error, e) ↦
        elim (Bool-cases (
          broken
          || ltb d.redelivery_count max_attempts
          || (lacks_text d.event_id || lacks_text d.process_id || lacks_text d.protocol_id))) [
            | inl e' ↦ inl (ground (arith, e, e'))
            | inr e' ↦ inr (inr (error, ground (arith, e, e')))
          ]
  ]

  -- Every delivery, whatever comes of it, keeps the table sound: no event is in it twice, each row has
  -- been tried one to four times, and it names an error exactly if it is poison.
  pub persist-IsSound :
      (broken : Bool) (d : BrokerDelivery Body) (inbox : Inbox)
      → IsSound inbox
      → IsSound (persist broken d inbox).1
  unfolding received_row poison_row
  persist-IsSound broken d inbox sound = elim (persist-Leaves broken d inbox) [
    | inl same ↦ subst IsSound (sym same) sound
    | inr (inl (tried, at_after)) ↦
        subst IsSound (sym at_after)
          (insert_inbox-IsSound _ inbox sound (ground (arith, tried), ground arith, refl))
    | inr (inr (e, at_after)) ↦
        subst IsSound (sym at_after)
          (insert_inbox-IsSound _ inbox sound (ground arith, ground arith, refl))
  ]

  with_frames_lem :
      (tag : String) (p : Result InboxError Settlement × Inbox)
      → let (answer, after, frames) = with_frames Body payload_digest lower tag p in
        (length frames ≡ (if is_ok answer then 1 else 0))
        × (answer ≡ p.0)
        × (after ≡ p.1)
        × (frames ≡ ack_frame tag ∷ [] → p.0 ≡ ok acked)
  with_frames_lem tag (err e, after) = (refl, refl, refl, λ h. cc)
  with_frames_lem tag (ok acked, after) = (refl, refl, refl, λ h. refl)
  with_frames_lem tag (ok nack_requeue, after) = (refl, refl, refl, λ h. cc)
  with_frames_lem tag (ok nack_dead_letter, after) = (refl, refl, refl, λ h. cc)

  -- The broker is told that a delivery is accepted only when the event is in the table.
  pub ack_is_recorded :
      (broken : Bool) (d : BrokerDelivery Body) (inbox : Inbox)
      → (settle_inbox_delivery Body payload_digest lower broken d inbox).2
        ≡ ack_frame d.delivery_tag ∷ []
      → has_event d.event_id (settle_inbox_delivery Body payload_digest lower broken d inbox).1
        ≡ true
  unfolding settle_inbox_delivery
  ack_is_recorded broken d inbox h =
      let (count, same, same_table, told) =
        with_frames_lem d.delivery_tag (persist broken d inbox) in
      subst (λ t. has_event d.event_id t ≡ true) (sym same_table)
        (acked_is_recorded broken d inbox (ground (arith, told h)))

  -- The broker gets one frame or none, and where it gets none the table is as it was.
  pub silence_rolls_back :
      (broken : Bool) (d : BrokerDelivery Body) (inbox : Inbox)
      → (length (settle_inbox_delivery Body payload_digest lower broken d inbox).2 ≡ 1)
        ⊎ (((settle_inbox_delivery Body payload_digest lower broken d inbox).2 ≡ [])
            × ((settle_inbox_delivery Body payload_digest lower broken d inbox).1 ≡ inbox))
  unfolding settle_inbox_delivery
  silence_rolls_back broken d inbox =
      by_answer (persist broken d inbox) (λ e. raising_rolls_back broken d inbox)
    where
      by_answer :
          (p : Result InboxError Settlement × Inbox)
          → ((e : InboxError) → p.0 ≡ err e → p.1 ≡ inbox)
          → (length (with_frames Body payload_digest lower d.delivery_tag p).2 ≡ 1)
            ⊎ (((with_frames Body payload_digest lower d.delivery_tag p).2 ≡ [])
                × ((with_frames Body payload_digest lower d.delivery_tag p).1 ≡ inbox))
      by_answer (ok s, after) h = inl refl
      by_answer (err e, after) h = inr (refl, h e refl)
