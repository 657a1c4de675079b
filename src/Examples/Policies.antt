-- ===== src/Examples/Policies.antt =====
-- Runs of the retry policy, the cascade and the matrix of rights.
use kontur.Prelude.{
  ℕ, ◌≡◌, ◌≤◌, refl, ◌↔◌, true, false, none, some, List, [], ◌∷◌, all, length, ok, elem, String_eq,
}
use kontur.Domain.Status.{FindingStatus_eq, low_quality, human_only_statuses}
use kontur.Retry.Schedule.{parse_delays, parse_delays_lem}
use kontur.Pipeline.{
  identity, extraction, stage_number, stage_failure_status, StageResult, is_present,
  required_precomparison_stages, halt_status, halted, run,
}
use kontur.Pipeline.Cascade.{IsEarliest, run-none_iff, run_of_failure}

parse_delays_lem_example :
    (ds : List ℕ) × (parse_delays 4 1 2 (30 ∷ 120 ∷ []) ≡ some ds) × (length ds ≡ 2)
parse_delays_lem_example = parse_delays_lem 2 (30 ∷ 120 ∷ []) (λ e. cc)

abbrev results : List StageResult
results =
    record { stage = extraction; ok = false; status = none; detail = "" }
    ∷ record { stage = identity; ok = true; status = none; detail = "" }
    ∷ []

run-none_iff_example : (run results ≡ ok none) ↔ (
    (all (λ r. r.ok) results ≡ true)
    × (all (is_present results) required_precomparison_stages ≡ true))
run-none_iff_example = run-none_iff results

run_of_failure_example :
    (r : StageResult) × (r.ok ≡ false)
    × IsEarliest r results
    × (1 ≤ stage_number r.stage)
    × (some low_quality ≡ elim r.status [ some t ↦ some t | none ↦ stage_failure_status r.stage ])
    × (elem low_quality human_only_statuses ≡ false)
unfolding run halted halt_status
run_of_failure_example = run_of_failure results {s = low_quality} refl
