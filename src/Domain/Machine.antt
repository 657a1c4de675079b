-- ===== src/Domain/Machine.antt =====
-- backend/src/kontur/domain/state_machines.py: the tables of transitions and the guarded moves.
-- An exception is a value of `TransitionError`, `message` for a fixed
-- text, `formatted` for a text with texts filled in, and a constructor each for the
-- texts that name states.
pub mod Finding
pub mod Process
pub mod Sync
use kontur.Prelude.{
  Bool, true, false, not, ◌&&◌, String, List, [], ◌∷◌, Result, ok, err, ◌>>=◌, ◌>>◌, raise_if, ◌==◌,
  elem,
}
use kontur.Prelude.Text.{lacks_text}
use kontur.Domain.Status.{
  ProcessState, pending, parsing, ready, verifying, completed, finalized, FindingStatus, candidate,
  confirmed_violation, negative_verified, auto_no_difference, missing_evidence, not_applicable,
  not_comparable, low_quality, abstain, clarification_required, suspicion, SyncState, not_requested,
  pending_sync, syncing, synced, retry_wait, failed_terminal, human_only_statuses, FindingStatus_eq,
  ProcessState_eq, SyncState_eq,
}

pub data TransitionError : Type 0 where
  message : String → TransitionError
  formatted : String → List String → TransitionError
  process_move : ProcessState → ProcessState → TransitionError
  finding_move : FindingStatus → FindingStatus → TransitionError
  sync_move : SyncState → SyncState → TransitionError
  human_status : FindingStatus → String → TransitionError

pub process_transitions : ProcessState → List ProcessState
process_transitions pending = parsing ∷ []
process_transitions parsing = ready ∷ pending ∷ []
process_transitions ready = verifying ∷ parsing ∷ []
process_transitions verifying = completed ∷ parsing ∷ []
process_transitions completed = parsing ∷ []
process_transitions finalized = []

pub finding_transitions : FindingStatus → List FindingStatus
finding_transitions candidate =
    confirmed_violation ∷ negative_verified ∷ clarification_required ∷ []
finding_transitions clarification_required =
    candidate ∷ confirmed_violation ∷ negative_verified ∷ []
finding_transitions suspicion = candidate ∷ confirmed_violation ∷ negative_verified ∷ []
finding_transitions auto_no_difference = negative_verified ∷ []
finding_transitions missing_evidence = []
finding_transitions not_comparable = []
finding_transitions low_quality = []
finding_transitions abstain = []
finding_transitions not_applicable = candidate ∷ []
finding_transitions confirmed_violation = []
finding_transitions negative_verified = []

pub sync_transitions : SyncState → List SyncState
sync_transitions not_requested = pending_sync ∷ []
sync_transitions pending_sync = syncing ∷ []
sync_transitions syncing = synced ∷ retry_wait ∷ failed_terminal ∷ pending_sync ∷ []
sync_transitions retry_wait = syncing ∷ failed_terminal ∷ []
sync_transitions synced = []
sync_transitions failed_terminal = pending_sync ∷ []

pub record Actor : Type 0 where
  pub actor_id : String
  pub is_human : Bool
  pub is_supervisor : Bool

unfoldable pub enter_verifying : ProcessState → Actor → Result TransitionError ProcessState
enter_verifying current actor = do
  raise_if (not actor.is_human) (message "start verification requires a human inspector")
  raise_if (not (current == ready)) (process_move current verifying)
  ok verifying

unfoldable pub enter_completed : ProcessState → Actor → Result TransitionError ProcessState
enter_completed current actor = do
  raise_if (not actor.is_human) (message "complete verification requires a human inspector")
  raise_if (not (current == verifying)) (process_move current completed)
  ok completed

unfoldable pub enter_finalized : ProcessState → Actor → Result TransitionError ProcessState
enter_finalized current actor = do
  raise_if (not actor.is_human) (message "finalize requires a human inspector")
  raise_if (not (current == completed)) (process_move current finalized)
  ok finalized

unfoldable pub advance_process : ProcessState → ProcessState → Result TransitionError ProcessState
unfolding process_transitions
advance_process current target = do
  raise_if (target == verifying) (message "VERIFYING только через start_verification с актором")
  raise_if (target == completed)
      (message "COMPLETED только через complete_verification с актором и находками")
  raise_if (target == finalized)
      (message "FINALIZED только через finalize_process с актором и находками")
  raise_if (not (elem target (process_transitions current))) (process_move current target)
  ok target

unfoldable pub advance_finding :
    FindingStatus → FindingStatus → Actor → Result TransitionError FindingStatus
unfolding finding_transitions
advance_finding current target actor = do
  raise_if (elem target human_only_statuses && not actor.is_human)
      (human_status target actor.actor_id)
  raise_if (current == not_applicable && not actor.is_human)
      (message "NOT_APPLICABLE override requires a human inspector")
  raise_if (not (elem target (finding_transitions current))) (finding_move current target)
  ok target

unfoldable pub advance_sync : SyncState → SyncState → Result TransitionError SyncState
unfolding sync_transitions
advance_sync current target = do
  raise_if (not (elem target (sync_transitions current))) (sync_move current target)
  ok target

unfoldable pub unfinalize : ProcessState → Actor → String → Result TransitionError ProcessState
unfinalize current actor reason = do
  raise_if (not (current == finalized)) (message "unfinalize requires FINALIZED")
  raise_if (not actor.is_human) (message "unfinalize requires a human")
  raise_if (lacks_text reason) (message "unfinalize requires reason")
  ok completed
