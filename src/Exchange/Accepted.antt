-- ===== src/Exchange/Accepted.antt =====
-- What the relay of a store that a run reaches publishes, and what the inbox answers.
use kontur.Prelude.{
  ℕ, ◌≤◌, ◌≡◌, refl, sym, ap, ◌∙◌, Bool, true, false, some, none, Option, String, eq_iff, ok,
  All-find, ◌==◌, arith,
}
use kontur.Prelude.{String_eq}
use Prim.Native.String.{◌++◌ as concat}
use kontur.Prelude.Text.{lacks_text, strip, lstrip, rstrip, is_space}
use text.Mathlib.TextLemmas.{cons-append}
use kontur.Prelude.Json.{Fields}
use kontur.Prelude.Dict.{lookup}
use kontur.Outbox.{Outbox, OutboxRow, RinResult, claim_memory}
use kontur.Outbox.Claim.{claim_memory_lem}
use kontur.Outbox.Relay.{relay_outcome, refusal, status_of_try}
use kontur.Inbox.{acked, delivery_error, persist_inbox_delivery, Inbox}
use kontur.Inbox.Effect.{acked_iff}
use kontur.Store.{MemoryProcessStore}
use kontur.Store.Materialize.{load_protocol}
use kontur.Exchange.{payload_digest, published_digest, relay_store, delivered_message, Reached}
use kontur.Exchange.Intact.{IsPromised, IsIntact, Reached-IsIntact}

rin_has_text : (p : String) → lacks_text (concat "rin-" p) ≡ false
unfolding lacks_text strip lstrip rstrip is_space
rin_has_text p = ap lacks_text (cons-append "r" "in-" p)

-- What the broker and the outside system answer to a try: an error and whether it is final, or nothing
-- if the message is taken.
abbrev pub answer :
    (OutboxRow → String → Option String)
    → (String → String → RinResult)
    → OutboxRow
    → String
    → Option (String × Bool)
answer publish deliver row text = elim (publish row text) [
  | some error ↦ some (error, false)
  | none ↦ refusal (deliver text row.event_id)
]

module _ {Float : Type 0} (canonical : Fields Float → String) (clone : Fields Float → Fields Float)
    (sha256 : String → String)
    (clone_keeps_text : (d : Fields Float) → canonical (clone d) ≡ canonical d) where
  digest_agrees :
      (row : OutboxRow) (stored : Fields Float)
      → row.payload_sha256 ≡ sha256 (canonical stored)
      → (published_digest canonical clone sha256 (clone stored) == row.payload_sha256) ≡ true
  digest_agrees row stored h =
      let same : published_digest canonical clone sha256 (clone stored) ≡ row.payload_sha256 =
        ap sha256 (
          clone_keeps_text (clone (clone stored))
          ∙ clone_keeps_text (clone stored)
          ∙ clone_keeps_text stored)
        ∙ sym h in
      (eq_iff (published_digest canonical clone sha256 (clone stored)) row.payload_sha256).1 same

module _ {Float Event Evidence : Type 0} (canonical : Fields Float → String)
    (clone : Fields Float → Fields Float) (sha256 : String → String)
    (clone_keeps_text : (d : Fields Float) → canonical (clone d) ≡ canonical d)
    (sha256_is_stripped : (t : String) → strip (sha256 t) ≡ sha256 t) where
  -- The row of a claim and the text of its protocol.
  abbrev IsSendable : MemoryProcessStore Float Event Evidence → OutboxRow → Fields Float → Type 0
  IsSendable store row stored =
      (lookup row.protocol_id store.protocols ≡ some stored)
      × (row.payload_sha256 ≡ sha256 (canonical stored))
      × (lacks_text row.event_id ≡ false)
      × (lacks_text row.process_id ≡ false)
      × (lacks_text row.protocol_id ≡ false)

  claimed-IsSendable :
      (now : ℕ) (store : MemoryProcessStore Float Event Evidence)
      → IsIntact canonical sha256 store
      → {row : OutboxRow} {claimed : Outbox} → claim_memory now store.outbox ≡ some (row, claimed)
      → (stored : Fields Float) × IsSendable store row stored
  claimed-IsSendable now store (promised, keyed) {row} e =
      let (item, (found, eligible, least, at_row, at_claimed)) =
        claim_memory_lem now store.outbox keyed e in
      let (stored, at_stored, at_digest, at_event, named, named') =
        All-find (IsPromised canonical sha256 store.protocols) _ store.outbox promised found in
      (
        stored,
        (
          rw at_row at_stored,
          rw at_row (ap strip at_digest ∙ sha256_is_stripped (canonical stored)),
          rw at_row (rw at_event (rin_has_text item.protocol_id)),
          rw at_row named,
          rw at_row named',
        ),
      )

  load_protocol-lookup :
      (protocol_id : String) (store : MemoryProcessStore Float Event Evidence)
      {stored : Fields Float}
      → lookup protocol_id store.protocols ≡ some stored
      → load_protocol clone protocol_id store ≡ some (clone stored)
  unfolding load_protocol
  load_protocol-lookup protocol_id store h = ground (arith, h)

  -- In a store that a run reaches, a turn of the relay that claims a row ends without an exception, with
  -- the status that the broker's and the outside system's answers to the text of the stored protocol call
  -- for, and never for a digest that does not match.
  pub turn_is_answered :
      (publish : OutboxRow → String → Option String) (deliver : String → String → RinResult)
      (now : ℕ) (store : MemoryProcessStore Float Event Evidence)
      → Reached canonical clone sha256 store
      → {row : OutboxRow} {claimed : Outbox} → claim_memory now store.outbox ≡ some (row, claimed)
      → (stored : Fields Float) × (lookup row.protocol_id store.protocols ≡ some stored)
        × ((relay_store canonical clone sha256 publish deliver now store).0
            ≡ ok
                (some (status_of_try row.attempts (answer publish deliver row (canonical stored)))))
  turn_is_answered publish deliver now store reached {row} e =
      let intact = Reached-IsIntact canonical clone sha256 store reached in
      let (stored, (at_stored, at_digest, named, named', named'')) =
        claimed-IsSendable now store intact e in
      let text = clone_keeps_text stored in
      (
        stored,
        at_stored,
        relay_outcome (λ protocol_id. load_protocol clone protocol_id store)
              (published_digest canonical clone sha256) (λ r d. publish r (canonical d))
              (λ d. deliver (canonical d)) now store.outbox intact.1 e
              (load_protocol-lookup row.protocol_id store at_stored)
            ∙ ap (λ o. ok (some (status_of_try row.attempts o)))
                (rw (digest_agrees canonical clone sha256 clone_keeps_text row stored at_digest)
                  (ap (λ t. answer publish deliver row t) text)),
      )

  -- What the relay publishes of a store that a run reaches, the inbox acknowledges on every delivery
  -- whose transaction does not fail.
  pub published_is_acked :
      (loads : String → Option (Fields Float)) (lower : String → String)
      → ((d : Fields Float) → loads (canonical d) ≡ some (clone d))
      → ((t : String) → lower (sha256 t) ≡ sha256 t)
      → (now : ℕ) (store : MemoryProcessStore Float Event Evidence)
      → Reached canonical clone sha256 store
      → {row : OutboxRow} {claimed : Outbox} → claim_memory now store.outbox ≡ some (row, claimed)
      → {payload : Fields Float} → load_protocol clone row.protocol_id store ≡ some payload
      → (tag : String) (n : ℕ) (inbox : Inbox) → 1 ≤ n
      → (persist_inbox_delivery String
          (payload_digest canonical clone sha256 loads)
          lower
          false
          (delivered_message tag n row (canonical payload))
          inbox).0
        ≡ ok acked
  unfolding delivery_error
  published_is_acked loads lower reads is_low now store reached {row} e {payload} at_payload tag n
        inbox counted =
      let intact = Reached-IsIntact canonical clone sha256 store reached in
      let (stored, (at_stored, at_digest, named, named', named'')) =
        claimed-IsSendable now store intact e in
      let loaded = load_protocol-lookup row.protocol_id store at_stored in
      let at_clone : payload ≡ clone stored = cc in
      let agrees : (published_digest canonical clone sha256 payload == row.payload_sha256) ≡ true =
        rw at_clone (digest_agrees canonical clone sha256 clone_keeps_text row stored at_digest) in
      let low : lower (strip row.payload_sha256) ≡ row.payload_sha256 =
        rw at_digest (rw (sha256_is_stripped (canonical stored)) (is_low (canonical stored))) in
      (acked_iff (payload_digest canonical clone sha256 loads) lower false
          (delivered_message tag n row (canonical payload)) inbox).1
        (rw (named, named', named'', reads payload, low, agrees) refl, counted, refl)
