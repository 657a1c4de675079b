-- ===== src/Examples/Machines.antt =====
-- Runs of the state machines of backend/src/kontur/domain/state_machines.py.
use kontur.Prelude.{◌≡◌, refl, true, any, List, [], ◌∷◌}
use kontur.Domain.Status.{parsing, ready, candidate, confirmed_violation, FindingStatus_eq}
use kontur.Domain.Machine.{
  advance_finding, advance_process, enter_verifying, enter_completed, enter_finalized,
}
use kontur.Domain.Machine.Finding.{Request, run_requests, human_asked, verdict_needs_human}
use kontur.Domain.Machine.Process.{
  ProcessOp, verify, complete, finalize, advance, apply_op, run_ops, is_human_step,
  finalized_needs_human,
}
use kontur.Examples.{anna, robot}

abbrev requests : List Request
requests = (confirmed_violation, robot) ∷ (confirmed_violation, anna) ∷ []

verdict_needs_human_example : human_asked confirmed_violation requests ≡ true
unfolding run_requests advance_finding
verdict_needs_human_example =
    verdict_needs_human candidate confirmed_violation requests refl (λ e. cc) refl

abbrev life : List ProcessOp
life =
    advance parsing
    ∷ advance ready
    ∷ finalize anna
    ∷ verify anna
    ∷ complete anna
    ∷ finalize anna
    ∷ []

finalized_needs_human_example :
    (any (is_human_step 1) life ≡ true)
    × (any (is_human_step 2) life ≡ true)
    × (any (is_human_step 3) life ≡ true)
unfolding run_ops apply_op advance_process enter_verifying enter_completed enter_finalized
finalized_needs_human_example = finalized_needs_human life refl
