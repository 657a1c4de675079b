-- ===== src/Scenario.antt =====
-- backend/src/kontur/application/scenarios.py: what was uploaded, and which check that makes.
-- The dictionary from stages to completeness is a record: a stage that is no key is `none`.
pub mod Cases
use kontur.Prelude.{
  Bool, true, false, not, ◌&&◌, ◌||◌, Option, none, some, Result, ok, err, ◌==◌, if◌then◌else◌,
}
use kontur.Domain.Status.{
  Completeness, uploaded, partial, missing, Completeness_eq, Scenario, full, pd_rd_only, pd_id_only,
  rd_id_only, single_only, partially_loaded, FindingStatus, not_applicable, missing_evidence,
}
use kontur.Domain.Models.{DocStage, pd, rd, id}

pub record CompletenessMap : Type 0 where
  pub of_pd : Option Completeness
  pub of_rd : Option Completeness
  pub of_id : Option Completeness

-- `completeness.get(stage)`
abbrev pub of_stage : CompletenessMap → DocStage → Option Completeness
of_stage m pd = m.of_pd
of_stage m rd = m.of_rd
of_stage m id = m.of_id

-- The stage is in the set `present`.
abbrev pub is_present : Option Completeness → Bool
is_present none = false
is_present (some state) = not (state == missing)

abbrev pub is_partial : Option Completeness → Bool
is_partial none = false
is_partial (some state) = state == partial

pub data EmptyPackageError : Type 0 where
  empty_package : EmptyPackageError

unfoldable pub detect_scenario : CompletenessMap → Bool → Result EmptyPackageError Scenario
detect_scenario m declared =
    let p = is_present m.of_pd in
    let r = is_present m.of_rd in
    let i = is_present m.of_id in
    let some_partial = is_partial m.of_pd || (is_partial m.of_rd || is_partial m.of_id) in
    if not (p || (r || i)) && not some_partial
    then err empty_package
    else if some_partial
    then ok partially_loaded
    else if p && (r && i)
    then (if declared then ok full else ok partially_loaded)
    else if p && (r && not i)
    then ok pd_rd_only
    else if p && (not r && i)
    then ok pd_id_only
    else if not p && (r && i)
    then ok rd_id_only
    else ok single_only

unfoldable pub status_for_missing_stage : Bool → Bool → FindingStatus
status_for_missing_stage stage_required_by_rule stage_applicable_to_object =
    if not stage_applicable_to_object
    then not_applicable
    else if stage_required_by_rule
    then missing_evidence
    else not_applicable
