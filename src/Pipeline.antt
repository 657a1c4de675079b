-- ===== src/Pipeline.antt =====
-- The cascade of application/pipeline.py: which status ends it, and when a rule goes on to be compared.
pub mod Cascade
use kontur.Prelude.{
  ℕ, ◌-◌, Bool, true, false, not, Option, none, some, String, List, [], ◌∷◌, is_empty, any, select,
  find, Result, ok, err, ◌>>=◌, ◌>>◌, raise_if, elem, leb, nat_eq, if◌then◌else◌,
}
use kontur.Prelude.{ℕ_eq}
use kontur.Domain.Status.{
  FindingStatus, FindingStatus_eq, human_only_statuses, clarification_required, low_quality,
  not_comparable, abstain, confirmed_violation, negative_verified, not_applicable,
}

pub data Stage : Type 0 where
  intake identity extraction localization revision pairing matrix findings review protocol : Stage

-- The number of a stage; the stages are ordered by it.
abbrev pub stage_number : Stage → ℕ
stage_number intake = 0
stage_number identity = 1
stage_number extraction = 2
stage_number localization = 3
stage_number revision = 4
stage_number pairing = 5
stage_number matrix = 6
stage_number findings = 7
stage_number review = 8
stage_number protocol = 9

-- `STAGE_FAILURE_STATUS.get(stage)`
abbrev pub stage_failure_status : Stage → Option FindingStatus
stage_failure_status identity = some clarification_required
stage_failure_status extraction = some low_quality
stage_failure_status localization = some low_quality
stage_failure_status revision = some clarification_required
stage_failure_status pairing = some not_comparable
stage_failure_status matrix = some clarification_required
stage_failure_status findings = some abstain
stage_failure_status _ = none

abbrev pub is_non_halting : Stage → Bool
is_non_halting review = true
is_non_halting protocol = true
is_non_halting _ = false

abbrev pub required_precomparison_stages : List Stage
required_precomparison_stages =
    identity ∷ extraction ∷ localization ∷ revision ∷ pairing ∷ matrix ∷ findings ∷ []

-- `ValueError` for the intake, and `StageHaltError` by its reason
pub data PipelineError : Type 0 where
  intake_is_rejected : PipelineError
  not_halting : Stage → PipelineError
  no_status : Stage → PipelineError
  human_status : Stage → FindingStatus → PipelineError
  missing_stages : List Stage → PipelineError

pub record StageResult : Type 0 where
  pub stage : Stage
  pub ok : Bool
  pub status : Option FindingStatus
  pub detail : String

unfoldable pub halt_status : Stage → Result PipelineError FindingStatus
halt_status stage = do
  raise_if (nat_eq (stage_number stage) 0) intake_is_rejected
  raise_if (is_non_halting stage) (not_halting stage)
  elim (stage_failure_status stage) [ none ↦ err (no_status stage) | some s ↦ Result.ok s ]

-- `sorted(stages, key=lambda item: item.stage)`, which keeps the order of equal stages
abbrev pub insert_stage : StageResult → List StageResult → List StageResult
insert_stage r [] = r ∷ []
insert_stage r (s ∷ ss) =
    let rest = insert_stage r ss in
    if leb (stage_number r.stage) (stage_number s.stage) then r ∷ s ∷ ss else s ∷ rest

abbrev pub sort_stages : List StageResult → List StageResult
sort_stages [] = []
sort_stages (r ∷ rs) = insert_stage r (sort_stages rs)

abbrev pub is_present : List StageResult → Stage → Bool
is_present rs s = any (λ r. nat_eq (stage_number r.stage) (stage_number s)) rs

-- What a stage that has failed ends the cascade with.
unfoldable pub halted : StageResult → Result PipelineError (Option FindingStatus)
unfolding halt_status
halted r = do
  raise_if (nat_eq (stage_number r.stage) 0) intake_is_rejected
  status ← elim r.status [ some s ↦ Result.ok s | none ↦ halt_status r.stage ]
  raise_if (elem status human_only_statuses) (human_status r.stage status)
  Result.ok (some status)

-- The loop over the sorted results: the first that has failed, if any.
abbrev pub first_failure : List StageResult → Option StageResult
first_failure rs = find (λ r. not r.ok) (sort_stages rs)

abbrev pub admitted : List StageResult → Result PipelineError (Option FindingStatus)
admitted stages = do
  let missing = select (λ s. not (is_present stages s)) required_precomparison_stages
  raise_if (not (is_empty missing)) (missing_stages missing)
  Result.ok none

abbrev pub ended :
    List StageResult → Option StageResult → Result PipelineError (Option FindingStatus)
ended stages (some r) = halted r
ended stages none = admitted stages

unfoldable pub run : List StageResult → Result PipelineError (Option FindingStatus)
run stages = ended stages (first_failure stages)
