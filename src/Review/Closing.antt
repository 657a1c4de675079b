-- ===== src/Review/Closing.antt =====
-- Opening, closing and reopening the inspector's queue, with the audit log.
use kontur.Prelude.{
  ℕ, suc, ◌≡◌, refl, Bool, not, ◌&&◌, Option, none, some, String, List, [], ◌∷◌, ◌++◌, length,
  Result, ◌==◌, nat_eq, if◌then◌else◌, arith,
}
use kontur.Prelude.{returned, String_eq}
use kontur.Prelude.Text.{strip, lacks_text}
use kontur.Domain.Status.{
  ProcessState, ready, verifying, completed, finalized, process_value, FindingStatus_eq, candidate,
  ProcessState_eq,
}
use kontur.Domain.Machine.{Actor, TransitionError, enter_verifying, unfinalize}
use kontur.Domain.Models.{Finding}
use kontur.Review.{can_finalize, AuditEntry, start_verification, unfinalize_process}

-- The number of findings that wait for a decision.
abbrev pub open_candidates : {Float : Type 0} → List (Finding Float) → ℕ
open_candidates [] = 0
open_candidates (f ∷ fs) =
    if f.finding_status == candidate then suc (open_candidates fs) else open_candidates fs

module _ {Float : Type 0} where
  -- The queue is closed exactly when no finding is a CANDIDATE, and otherwise the answer names as
  -- many findings as wait.
  pub can_finalize_lem :
      (findings : List (Finding Float))
      → ((can_finalize findings).0 ≡ nat_eq (open_candidates findings) 0)
        × (length (can_finalize findings).1 ≡ open_candidates findings)
  unfolding can_finalize
  can_finalize_lem findings = (closed findings, named findings)
    where
      named : (fs : List (Finding Float)) → length (can_finalize fs).1 ≡ open_candidates fs
      named [] = refl
      named (f ∷ fs) = ground (arith, named fs)

      closed : (fs : List (Finding Float)) → (can_finalize fs).0 ≡ nat_eq (open_candidates fs) 0
      closed [] = refl
      closed (f ∷ fs) = ground (arith, closed fs)

-- What a call did: the new state if it was accepted, and the log after it.
abbrev pub outcome :
    Result TransitionError ProcessState × List AuditEntry → Option ProcessState × List AuditEntry
outcome (r, log) = (returned r, log)

abbrev pub entry :
    Actor → String → ProcessState → ProcessState → List (String × String) → AuditEntry
entry actor action source target extra = record {
  actor_id = actor.actor_id;
  action = action;
  payload = ("from", process_value source) ∷ ("to", process_value target) ∷ extra;
}

-- The outcome of an operation that is accepted exactly when `test` passes, and is then logged.
abbrev pub logged_when :
    Bool → ProcessState → List AuditEntry → AuditEntry → Option ProcessState × List AuditEntry
logged_when test target log e = if test then (some target, log ++ e ∷ []) else (none, log)

-- Opening the queue is accepted exactly for a human and in READY, and leads to VERIFYING; unfinalizing
-- exactly for a human, in FINALIZED and with a reason, and leads to COMPLETED. Accepted, either adds
-- one entry to the log, with the stripped reason in the second; refused, the log stays as it was. That
-- any human may unfinalize is what the code does: its comments ask for a supervisor.
pub reopening_lem :
    (current : ProcessState) (actor : Actor) (reason : String) (log : List AuditEntry)
    → (outcome (start_verification current actor log)
        ≡ logged_when
            (actor.is_human && current == ready)
            verifying
            log
            (entry actor "START_VERIFICATION" ready verifying []))
      × (outcome (unfinalize_process current actor reason log)
          ≡ logged_when
              (actor.is_human && current == finalized && not (lacks_text reason))
              completed
              log
              (entry actor "UNFINALIZE" finalized completed (("reason", strip reason) ∷ [])))
unfolding start_verification unfinalize_process enter_verifying unfinalize
reopening_lem current actor reason log = (ground arith, ground arith)
