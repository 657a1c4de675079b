-- ===== src/Review.antt =====
-- backend/src/kontur/application/review.py: the inspector's decisions on findings and processes.
-- The clock is an argument, `now`. The audit log is a port of the domain: the list of what was
-- recorded, in order.
pub mod Decision
pub mod Batch
pub mod Closing
pub mod Splitting
use kontur.Prelude.{
  ℕ, ◌+◌, ◌-◌, Bool, true, false, not, ◌&&◌, Option, none, some, is_some, String, List, [], ◌∷◌,
  ◌++◌, map, length, is_empty, select, Result, ok, err, ◌>>=◌, ◌>>◌, raise_if, ◌==◌, elem, ltb,
  nat_eq, if◌then◌else◌,
}
use kontur.Prelude.{or_raise, raised_as, traverse, String_eq}
use Prim.Native.String.{◌++◌ as concat}
use kontur.Prelude.Text.{strip, lacks_text}
use kontur.Prelude.Text.Decimal.{decimal}
use kontur.Domain.Status.{
  ProcessState, process_value, FindingStatus, FindingStatus_eq, candidate, confirmed_violation,
  negative_verified, clarification_required, ReasonCode,
}
use kontur.Domain.Machine.{
  Actor, TransitionError, message, formatted, advance_finding, enter_verifying, enter_completed,
  enter_finalized, unfinalize,
}
use kontur.Domain.Models.{
  ApprovalStatus, not_approved, EvidenceGroup, EvidenceFragment, InspectorDecision, Finding,
}
use kontur.Domain.Models.Checks.{ValueError, new_finding}
use kontur.Revision.Approval.{overlay_inspector_approval}

-- What a call may raise: a refused transition, or a value that an entity does not accept.
pub data ReviewError : Type 0 where
  transition : TransitionError → ReviewError
  invalid : ValueError → ReviewError

abbrev pub mass_confirm_limit : ℕ
mass_confirm_limit = 50

unfoldable pub action_to_status : String → Option FindingStatus
action_to_status action =
    if action == "CONFIRM"
    then some confirmed_violation
    else if action == "REJECT"
    then some negative_verified
    else if action == "REQUEST_CLARIFICATION"
    then some clarification_required
    else none

-- `comment`, if it is a text that is not blank
abbrev pub worded : Option String → Option String
worded none = none
worded (some c) = if lacks_text c then none else some c

-- `set(ids)`, in the order of the first occurrences
abbrev pub unique : List String → List String
unique [] = []
unique (x ∷ xs) = if elem x xs then unique xs else x ∷ unique xs

pub record AuditEntry : Type 0 where
  pub actor_id : String
  pub action : String
  pub payload : List (String × String)

-- A call that may write to the audit log: what it returns or raises, and the log after it.
abbrev pub Audited : Type 0 → Type 0
Audited A = List AuditEntry → Result TransitionError A × List AuditEntry

-- `audit.record(...)` of a change of state, and the new state.
moved :
    Actor
    → String
    → ProcessState
    → List (String × String)
    → Result TransitionError ProcessState
    → Audited ProcessState
moved actor action current extra (err e) log = (err e, log)
moved actor action current extra (ok target) log = (
  ok target,
  log
      ++ record {
        actor_id = actor.actor_id;
        action = action;
        payload = ("from", process_value current) ∷ ("to", process_value target) ∷ extra;
      }
        ∷ [],
)

unfoldable pub start_verification : ProcessState → Actor → Audited ProcessState
unfolding moved
start_verification current actor = moved actor "START_VERIFICATION" current [] (do
  raise_if (not actor.is_human) (message "start verification requires a human inspector")
  enter_verifying current actor)

unfoldable pub unfinalize_process : ProcessState → Actor → String → Audited ProcessState
unfolding moved
unfinalize_process current actor reason =
    moved actor "UNFINALIZE" current (("reason", strip reason) ∷ [])
      (unfinalize current actor reason)

abbrev pub is_not_approved : ApprovalStatus → Bool
is_not_approved not_approved = true
is_not_approved _ = false

unfoldable pub select_revision_as_etalon :
    Actor → ApprovalStatus → String → Result TransitionError ApprovalStatus
unfolding overlay_inspector_approval
select_revision_as_etalon actor stamp comment = do
  raise_if (not actor.is_human) (message "выбор эталона требует инспектора")
  raise_if (lacks_text comment) (message "выбор эталона требует comment")
  raise_if (is_not_approved stamp)
      (message "явный отказ в утверждении нельзя перекрыть выбором инспектора")
  ok (overlay_inspector_approval stamp true)

module _ {Float : Type 0} where
  unfoldable pub review :
      Finding Float
      → Actor
      → ℕ
      → String
      → Option ReasonCode
      → Option String
      → Result ReviewError (Finding Float)
  unfolding action_to_status
  review finding actor now action reason comment = do
    raise_if (action == "SPLIT")
        (transition (message "SPLIT is not an atomic review action; use split()"))
    target ←
        or_raise (action_to_status action)
          (transition (formatted "unknown review action" (action ∷ [])))
    raise_if (action == "REJECT" && not (is_some reason))
        (transition (message "REJECT requires reason_code"))
    words ← or_raise (worded comment) (transition (message "review action requires comment"))
    _ ← raised_as transition (advance_finding finding.finding_status target actor)
    raised_as invalid (
        new_finding (record finding {
          finding_status = target;
          inspector_decision = some (record {
            inspector_id = actor.actor_id;
            action = action;
            timestamp = now;
            reason_code = reason;
            comment = some (strip words);
          });
        }))

  first_other : List (Finding Float) → Result TransitionError (Unit {0})
  first_other [] = ok tt
  first_other (item ∷ items) =
      if item.finding_status == candidate
      then first_other items
      else err (formatted "массово подтверждается только CANDIDATE" (item.finding_id ∷ []))

  -- Each review reads the clock, whose readings are `clock 0`, `clock 1` and so on.
  unfoldable pub confirm_each :
      Actor → (ℕ → ℕ) → String → List (Finding Float) → Result ReviewError (List (Finding Float))
  unfolding review
  confirm_each actor clock comment [] = ok []
  confirm_each actor clock comment (item ∷ items) = do
    first ← review item actor (clock 0) "CONFIRM" none (some comment)
    rest ← confirm_each actor (λ n. clock (n + 1)) comment items
    ok (first ∷ rest)

  unfoldable pub confirm_candidates :
      List (Finding Float) → Actor → (ℕ → ℕ) → String → Result ReviewError (List (Finding Float))
  unfolding first_other confirm_each
  confirm_candidates findings actor clock comment = do
    raise_if (is_empty findings) (transition (message "пустой список подтверждения"))
    raise_if (ltb mass_confirm_limit (length findings))
        (transition (message "пачка больше 50 находок"))
    let ids = map (λ (item : Finding Float). item.finding_id) findings
    raise_if (not (nat_eq (length ids) (length (unique ids))))
        (transition (message "повтор finding_id в пачке"))
    raise_if (not actor.is_human) (transition (message "массовое подтверждение требует инспектора"))
    raised_as transition (first_other findings)
    confirm_each actor clock comment findings

  -- The findings that keep the queue open, and whether there is none.
  unfoldable pub can_finalize : List (Finding Float) → Bool × List String
  can_finalize findings =
      let pending =
        map (λ (f : Finding Float). f.finding_id)
          (select (λ f. f.finding_status == candidate) findings) in
      (is_empty pending, pending)

  unfoldable pub complete_verification :
      ProcessState → Actor → List (Finding Float) → Audited ProcessState
  unfolding moved can_finalize
  complete_verification current actor findings = moved actor "COMPLETE_VERIFICATION" current [] (do
    raise_if (not actor.is_human) (message "complete verification requires a human inspector")
    let (done, pending) = can_finalize findings
    raise_if (not done) (formatted "unprocessed findings" pending)
    enter_completed current actor)

  unfoldable pub finalize_process :
      ProcessState → Actor → List (Finding Float) → Audited ProcessState
  unfolding moved can_finalize
  finalize_process current actor findings = moved actor "FINALIZE" current [] (do
    raise_if (not actor.is_human) (message "finalize requires a human inspector")
    let (done, pending) = can_finalize findings
    raise_if (not done) (formatted "unprocessed findings" pending)
    enter_finalized current actor)

  -- The loop of `split` over the parts from the `index`-th on, `seen` holding the groups so far.
  split_from :
      Finding Float
      → ℕ
      → List String
      → List (EvidenceGroup Float)
      → Result ReviewError (List (Finding Float))
  split_from finding index seen [] = ok []
  split_from finding index seen (group ∷ parts) = do
    raise_if (is_empty group.fragments) (transition (message "у части нет доказательства"))
    raise_if (not (group.rule_code == finding.rule_code))
        (transition (message "часть относится к другому правилу"))
    raise_if (elem group.evidence_group_id seen)
        (transition (message "у частей один evidence_group_id"))
    part ← raised_as invalid (
        new_finding (record finding {
          finding_id = concat finding.finding_id (concat ":" (decimal index));
          evidence_group_id = some group.evidence_group_id;
          evidence_refs = map (λ (item : EvidenceFragment Float). item.fragment_id) group.fragments;
          inspector_decision = none;
        }))
    rest ← split_from finding (index + 1) (group.evidence_group_id ∷ seen) parts
    ok (part ∷ rest)

  unfoldable pub split :
      Finding Float → List (EvidenceGroup Float) → Actor → Result ReviewError (List (Finding Float))
  unfolding split_from
  split finding parts actor = do
    raise_if (not actor.is_human) (transition (message "разделение требует инспектора"))
    raise_if (not (finding.finding_status == candidate))
        (transition (message "делится только кандидат"))
    raise_if (ltb (length parts) 2)
        (transition (message "нужны минимум две части со своими доказательствами"))
    split_from finding 1 [] parts
