-- ===== src/Outbox/Relay.antt =====
-- What one turn of the relay makes of the outbox, and how many tries there are.
use kontur.Prelude.{
  ℕ, ◌+◌, ◌≤◌, ◌≡◌, refl, sym, ap, ◌∙◌, inl, inr, Bool, true, false, not, ◌||◌, Option, none, some,
  String, eq_iff, List, [], ◌∷◌, any, Result, ok, ◌>>=◌, >>=-eq-ok, ◌==◌, leb, if◌then◌else◌,
  Option-cases, arith,
}
use kontur.Prelude.{String_eq, ℕ_eq}
use kontur.Outbox.{
  OutboxStatus, pending, delivered, failed_terminal, OutboxRow, Outbox, OutboxError, retry_delay,
  is_eligible, change_first, leased, claim_memory, is_claimed, mark_memory_delivered,
  mark_memory_failed, max_attempts, RinStatus, RinResult, local_only, sent, send_failed,
  send_refused, publish_row, settled, relay_claimed, relay_from, relay_once_memory,
}
use kontur.Prelude.{returned, Result-cases}
use mathlib.Core.Path.{subst}
use kontur.Outbox.Rows.{
  IsKeyed, AllDiffer, budget, AllKept, AllKept-refl, AllKept-trans, any-change_first,
}
use kontur.Outbox.Claim.{claim_memory_lem, claim_memory_iff, claim_memory-spends}
use kontur.Retry.{next_sync_attempt}
use kontur.Outbox.Marks.{
  IsMarked, IsMarked-refl, mark_memory_delivered-IsMarked, mark_memory_failed-IsMarked,
  mark_memory_failed_ok,
}

-- The delays of the outbox are those of the schedule for the outside system.
pub retry_delay_agrees :
    (attempts : ℕ)
    → returned (retry_delay attempts)
      ≡ elim (returned (next_sync_attempt attempts)) [ none ↦ none | some d ↦ some d.delay_seconds ]
unfolding retry_delay next_sync_attempt
retry_delay_agrees attempts = ground arith

-- The error of a try and whether it is final; nothing if the row is delivered.
abbrev pub refusal : RinResult → Option (String × Bool)
refusal rin = of_status rin.status
  where
    of_status : RinStatus → Option (String × Bool)
    of_status send_refused = some (rin.detail, true)
    of_status send_failed = some (rin.detail, not rin.retryable)
    of_status local_only = none
    of_status sent = none

-- The status that a try with this outcome gives the row.
abbrev pub status_of_try : ℕ → Option (String × Bool) → OutboxStatus
status_of_try attempts none = delivered
status_of_try attempts (some (_, final)) =
    if final || leb max_attempts attempts then failed_terminal else pending

module _ {Body : Type 0} (stored_protocol : String → Option Body) (digest : Body → String)
    (publish : OutboxRow → Body → Option String) (deliver : Body → String → RinResult) where
  abbrev pub outcome_of_try : OutboxRow → Body → Option (String × Bool)
  outcome_of_try row body =
      if digest body == row.payload_sha256
      then elim (publish row body) [
        | some error ↦ some (error, false)
        | none ↦ refusal (deliver body row.event_id)
      ]
      else some ("payload_sha256 mismatch", true)

  abbrev mark :
      OutboxRow → ℕ → Outbox → Option (String × Bool) → Result OutboxError (OutboxStatus × Outbox)
  mark row now outbox none = do after ← mark_memory_delivered row.id outbox; ok (delivered, after)
  mark row now outbox (some (error, final)) = mark_memory_failed row now error final outbox

  publish_row_lem :
      (row : OutboxRow) (body : Body) (now : ℕ) (outbox : Outbox)
      → publish_row Body stored_protocol digest publish deliver row body now outbox
        ≡ mark row now outbox (outcome_of_try row body)
  unfolding publish_row
  publish_row_lem row body now outbox = ground arith

  mark-IsMarked :
      (row : OutboxRow) (now : ℕ) (outbox : Outbox) (outcome : Option (String × Bool))
      {status : OutboxStatus} {after : Outbox}
      → mark row now outbox outcome ≡ ok (status, after)
      → IsMarked outbox after
  mark-IsMarked row now outbox none {status} {after} h =
      let (marked, e, h') = >>=-eq-ok (mark_memory_delivered row.id outbox) _ h in
      mark_memory_delivered-IsMarked row.id outbox (ground (arith, e, h'))
  mark-IsMarked row now outbox (some (error, final)) h =
      mark_memory_failed-IsMarked row now error final outbox h

  mark_ok :
      (row : OutboxRow) (now : ℕ) (outbox : Outbox) (outcome : Option (String × Bool))
      → any (is_claimed row.id) outbox ≡ true
      → 1 ≤ row.attempts
      → (after : Outbox) × (mark row now outbox outcome
          ≡ ok (status_of_try row.attempts outcome, after))
  unfolding mark_memory_delivered
  mark_ok row now outbox none found tried = (
    change_first (is_claimed row.id) (λ i. record i { status = delivered; last_error = none })
        outbox,
    rw found refl,
  )
  mark_ok row now outbox (some (error, final)) found tried =
      mark_memory_failed_ok row now error final outbox found tried

  abbrev relay : ℕ → Outbox → Result OutboxError (Option OutboxStatus) × Outbox
  relay = relay_once_memory Body stored_protocol digest publish deliver

  relay_of_claim :
      (now : ℕ) (outbox : Outbox) {row : OutboxRow} {claimed : Outbox}
      → claim_memory now outbox ≡ some (row, claimed)
      → relay now outbox
        ≡ relay_claimed Body stored_protocol digest publish deliver row now claimed
            (stored_protocol row.protocol_id)
  unfolding relay_once_memory
  relay_of_claim now outbox e =
      ap (relay_from Body stored_protocol digest publish deliver now outbox) e

  settled-IsMarked :
      (row : OutboxRow) (now : ℕ) (claimed : Outbox) (stored : Option Body)
      → IsMarked claimed
          (relay_claimed Body stored_protocol digest publish deliver row now claimed stored).1
  settled-IsMarked row now claimed none = IsMarked-refl claimed
  settled-IsMarked row now claimed (some body) =
      elim (Result-cases
        (publish_row Body stored_protocol digest publish deliver row body now claimed)) [
          | inl ((status, after), e) ↦
              subst
                (λ r.
                  IsMarked claimed
                    (settled Body stored_protocol digest publish deliver claimed r).1)
                (sym e)
                (mark-IsMarked row now claimed (outcome_of_try row body)
                  (sym (publish_row_lem row body now claimed) ∙ e))
          | inr (error, e) ↦
              subst
                (λ r.
                  IsMarked claimed
                    (settled Body stored_protocol digest publish deliver claimed r).1)
                (sym e) (IsMarked-refl claimed)
        ]

  pub relay-IsMarked :
      (now : ℕ) (outbox : Outbox) {row : OutboxRow} {claimed : Outbox}
      → claim_memory now outbox ≡ some (row, claimed)
      → IsMarked claimed (relay now outbox).1
  relay-IsMarked now outbox {row} {claimed} e =
      subst (λ r. IsMarked claimed r.1) (sym (relay_of_claim now outbox e))
        (settled-IsMarked row now claimed (stored_protocol row.protocol_id))

  pub relay_of_no_claim :
      (now : ℕ) (outbox : Outbox) → claim_memory now outbox ≡ none → (relay now outbox).1 ≡ outbox
  unfolding relay_once_memory
  relay_of_no_claim now outbox e =
      ap (λ c. (relay_from Body stored_protocol digest publish deliver now outbox c).1) e

  -- In an outbox whose keys differ, a turn of the relay spends one of the tries that are left exactly if
  -- some row is eligible, whatever comes of it; it touches no row that is delivered or has failed for
  -- good, changes what no row promises to send, and leaves the keys different.
  pub relay_once_memory_lem :
      (now : ℕ) (outbox : Outbox)
      → IsKeyed outbox
      → (budget (relay now outbox).1 + (if any (is_eligible now) outbox then 1 else 0)
          ≡ budget outbox)
        × AllKept outbox (relay now outbox).1
        × IsKeyed (relay now outbox).1
  relay_once_memory_lem now outbox keyed = elim (Option-cases (claim_memory now outbox)) [
    | inl e ↦
        let same = relay_of_no_claim now outbox e in
        (
          ground (arith, e, same, claim_memory_iff now outbox),
          subst (AllKept outbox) (sym same) (AllKept-refl outbox),
          subst IsKeyed (sym same) keyed,
        )
    | inr ((row, claimed), e) ↦
        let (spent, kept, same_keys) = claim_memory-spends now outbox keyed e in
        let (still, kept', same_keys', same_tries) = relay-IsMarked now outbox e in
        (
          ground (arith, e, spent, still, claim_memory_iff now outbox),
          AllKept-trans outbox claimed (relay now outbox).1 kept kept',
          subst AllDiffer (sym (same_keys' ∙ same_keys)) keyed,
        )
  ]

  -- How many turns of the relay at these moments find a row to try.
  pub tries : List ℕ → Outbox → ℕ
  tries [] outbox = 0
  tries (now ∷ moments) outbox =
      (if any (is_eligible now) outbox then 1 else 0) + tries moments (relay now outbox).1

  pub tries-le-budget :
      (moments : List ℕ) (outbox : Outbox) → IsKeyed outbox → tries moments outbox ≤ budget outbox
  unfolding tries
  tries-le-budget [] outbox keyed = ground arith
  tries-le-budget (now ∷ moments) outbox keyed =
      let (spent, kept, keyed') = relay_once_memory_lem now outbox keyed in
      omega (arith, spent, tries-le-budget moments (relay now outbox).1 keyed')

  -- In an outbox whose keys differ, a turn that claims a row whose protocol is stored does not raise, and
  -- its outcome is the status that the answers call for and the tries of the row allow.
  pub relay_outcome :
      (now : ℕ) (outbox : Outbox)
      → IsKeyed outbox
      → {row : OutboxRow} {claimed : Outbox} → claim_memory now outbox ≡ some (row, claimed)
      → {body : Body} → stored_protocol row.protocol_id ≡ some body
      → (relay now outbox).0 ≡ ok (some (status_of_try row.attempts (outcome_of_try row body)))
  relay_outcome now outbox keyed {row} {claimed} e {body} e' =
      let (item, (found, eligible, least, at_row, at_claimed)) =
        claim_memory_lem now outbox keyed e in
      let is_there : any (is_claimed item.id)
            (change_first (λ i. i.protocol_id == item.protocol_id) (leased now) outbox)
          ≡ true =
        any-change_first (λ i. i.protocol_id == item.protocol_id) (is_claimed item.id) (leased now)
          outbox found (ground (arith, eq_iff item.id item.id)) in
      let (after, marked) =
        mark_ok row now claimed (outcome_of_try row body) (rw at_claimed (rw at_row is_there))
          (rw at_row (omega arith)) in
      ap (λ r. r.0)
        (relay_of_claim now outbox e
          ∙ ap (relay_claimed Body stored_protocol digest publish deliver row now claimed) e'
          ∙ ap (settled Body stored_protocol digest publish deliver claimed)
              (publish_row_lem row body now claimed ∙ marked))
