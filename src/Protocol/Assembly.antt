-- ===== src/Protocol/Assembly.antt =====
-- `assemble_protocol` of protocol.py. The dictionary `sections` is a function from its eight keys.
use kontur.Prelude.{
  ℕ, false, ◌&&◌, none, some, String, List, [], ◌∷◌, ◌++◌, length, Result, ok, err, ◌>>=◌, ◌>>◌,
  raise_if, ◌==◌, nat_eq, if◌then◌else◌,
}
use kontur.Prelude.{or_raise, raised_as}
use kontur.Prelude.Json.{Json, Fields, end, field, items, put}
use kontur.Domain.Status.{
  ProcessState, scenario_value, FindingStatus, FindingStatus_eq, candidate, confirmed_violation,
  negative_verified, auto_no_difference, missing_evidence, not_applicable, not_comparable,
  low_quality, abstain, clarification_required, suspicion,
}
use kontur.Domain.StatusMap.{protocol_status, tz_upload_status, on_the_wire}
use kontur.Domain.Models.{DocStage, pd, rd, id, Finding}
use kontur.Scenario.{CompletenessMap, of_stage, detect_scenario, EmptyPackageError}
use kontur.Protocol.Schema.{finding_to_schema}

pub data Section : Type 0 where
  completeness candidates confirmed negatives suspicions missing needs_attention : Section
  preliminary_no_difference : Section

abbrev pub section_number : Section → ℕ
section_number completeness = 0
section_number candidates = 1
section_number confirmed = 2
section_number negatives = 3
section_number suspicions = 4
section_number missing = 5
section_number needs_attention = 6
section_number preliminary_no_difference = 7

unfoldable pub section_of : FindingStatus → Section
section_of candidate = candidates
section_of confirmed_violation = confirmed
section_of negative_verified = negatives
section_of suspicion = suspicions
section_of missing_evidence = missing
section_of auto_no_difference = preliminary_no_difference
section_of low_quality = needs_attention
section_of abstain = needs_attention
section_of clarification_required = needs_attention
section_of not_comparable = needs_attention
section_of not_applicable = needs_attention

-- `KeyError` is a stage that the completeness does not name.
pub data AssemblyError : Type 0 where
  no_protocol_yet : ProcessState → AssemblyError
  auto_on_the_wire : AssemblyError
  empty_package : EmptyPackageError → AssemblyError
  key_error : DocStage → AssemblyError

abbrev pub Sections : Type 0 → Type 0
Sections Float = Section → List (Json Float)

-- `sections[key].append(row)`
abbrev pub append_to : {Float : Type 0} → Section → Json Float → Sections Float → Sections Float
append_to key r sections s =
    if nat_eq (section_number s) (section_number key) then sections s ++ r ∷ [] else sections s

-- What the call is given beside the findings. `refs` reads the rule registry and `rows` the catalogue;
-- `iso` writes a moment as text.
pub record Request (Float : Type 0) : Type 0 where
  pub protocol_id : String
  pub object_id : String
  pub of_stages : CompletenessMap
  pub files : List (Json Float)
  pub versions : Fields Float
  pub process_state : ProcessState
  pub input_manifest_hash : String
  pub version : ℕ
  pub revision_changes : List (Json Float)
  pub refs : String → List (Fields Float)
  pub rows : List (Json Float)
  pub iso : ℕ → String

abbrev upload_text : DocStage → CompletenessMap → Result AssemblyError String
upload_text stage m = elim (of_stage m stage) [
  | none ↦ err (key_error stage)
  | some c ↦ ok (tz_upload_status stage c)
]

module _ {Float : Type 0} where
  abbrev pub card : Request Float → Finding Float → Json Float
  card r f = Json.obj (finding_to_schema r.iso f (r.refs f.rule_code))

  -- The loop over the findings.
  unfoldable pub place_findings :
      Request Float → List (Finding Float) → Sections Float → Result AssemblyError (Sections Float)
  unfolding section_of on_the_wire
  place_findings r [] sections = ok sections
  place_findings r (f ∷ fs) sections = do
    raise_if (f.finding_status == auto_no_difference && on_the_wire f.finding_status)
        auto_on_the_wire
    place_findings r fs (append_to (section_of f.finding_status) (card r f) sections)

  abbrev pub initial_sections : Request Float → Sections Float
  initial_sections r completeness = r.rows
  initial_sections r _ = []

  unfoldable pub sections_json : Sections Float → Fields Float
  sections_json s = field "completeness" (Json.arr (items (s completeness))) (
      field "candidates" (Json.arr (items (s candidates))) (
        field "confirmed" (Json.arr (items (s confirmed))) (
          field "negative_verified" (Json.arr (items (s negatives))) (
            field "suspicions" (Json.arr (items (s suspicions))) (
              field "missing_evidence" (Json.arr (items (s missing))) (
                field "needs_attention" (Json.arr (items (s needs_attention))) (
                  field "preliminary_no_difference" (Json.arr (items (s preliminary_no_difference)))
                    end)))))))

  abbrev with_changes : List (Json Float) → Fields Float → Fields Float
  with_changes [] d = d
  with_changes (c ∷ cs) d = put "revision_changes" (Json.arr (items (c ∷ cs))) d

  unfoldable pub assemble_protocol :
      Request Float → List (Finding Float) → Result AssemblyError (Fields Float)
  unfolding place_findings sections_json
  assemble_protocol r findings = do
    status ← or_raise (protocol_status r.process_state) (no_protocol_yet r.process_state)
    sections ← place_findings r findings (initial_sections r)
    scenario ← raised_as empty_package (detect_scenario r.of_stages false)
    pd_text ← upload_text pd r.of_stages
    rd_text ← upload_text rd r.of_stages
    id_text ← upload_text id r.of_stages
    ok (
        with_changes r.revision_changes (
          field "protocol_id" (Json.text r.protocol_id) (
            field "object_id" (Json.text r.object_id) (
              field "version" (Json.int r.version) (
                field "status" (Json.text status) (
                  field "scenario" (Json.text (scenario_value scenario)) (
                    field "upload_status"
                      (Json.obj (
                        field "pd" (Json.text pd_text)
                          (field "rd" (Json.text rd_text) (field "id" (Json.text id_text) end))))
                      (field "sections" (Json.obj (sections_json sections)) (
                        field "violation_count" (Json.int (length (sections confirmed))) (
                          field "versions" (Json.obj r.versions) (
                            field "input_manifest"
                              (Json.obj (
                                field "manifest_hash" (Json.text r.input_manifest_hash)
                                  (field "files" (Json.arr (items r.files)) end)))
                              end)))))))))))
