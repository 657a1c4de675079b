-- ===== src/Scenario/Cases.antt =====
-- Which package gives which scenario.
use kontur.Prelude.{◌≡◌, ◌↔◌, Bool, true, false, ◌||◌, some, ◌∷◌, ok, is_ok, elem, arith}
use kontur.Domain.Status.{
  uploaded, full, partially_loaded, FindingStatus_eq, data_quality_statuses, human_only_statuses,
  candidate,
}
use kontur.Scenario.{
  CompletenessMap, is_present, is_partial, detect_scenario, status_for_missing_stage,
}

-- A package is refused exactly when no stage has a file, and it counts as full exactly when all three
-- stages are uploaded whole and the expected composition was declared.
pub detect_scenario_full_iff :
    (m : CompletenessMap) (declared : Bool)
    → (is_ok (detect_scenario m declared)
        ≡ (is_present m.of_pd || (is_present m.of_rd || is_present m.of_id)))
      × ((detect_scenario m declared ≡ ok full) ↔ (
          (declared ≡ true)
          × (m.of_pd ≡ some uploaded)
          × (m.of_rd ≡ some uploaded)
          × (m.of_id ≡ some uploaded)))
unfolding detect_scenario
detect_scenario_full_iff m declared = (ground arith, ground arith)

-- A stage that is loaded in part never gives a scenario of two or of all stages.
pub partial_loaded :
    (m : CompletenessMap) (declared : Bool)
    → (is_partial m.of_pd || (is_partial m.of_rd || is_partial m.of_id)) ≡ true
    → detect_scenario m declared ≡ ok partially_loaded
unfolding detect_scenario
partial_loaded m declared h = ground arith

-- A missing stage closes a rule with a status of data quality, never with a candidate or a verdict.
pub missing_stage_quality :
    (required applicable : Bool)
    → (elem (status_for_missing_stage required applicable) data_quality_statuses ≡ true)
      × (elem (status_for_missing_stage required applicable) (candidate ∷ human_only_statuses)
          ≡ false)
unfolding status_for_missing_stage
missing_stage_quality required applicable = (ground arith, ground arith)
