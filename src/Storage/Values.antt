-- ===== src/Storage/Values.antt =====
-- Members of enumerations by their texts, and the values that JSON gives back.
use kontur.Prelude.{◌≡◌, refl, String, List, [], ◌∷◌, find, Result, ok, ◌==◌}
use kontur.Prelude.{String_eq, or_raise}
use kontur.Domain.Status.{
  FindingStatus, candidate, confirmed_violation, negative_verified, auto_no_difference,
  missing_evidence, not_applicable, not_comparable, low_quality, abstain, clarification_required,
  suspicion, finding_value, ReviewPriority, high, medium, low, priority_value, ReasonCode,
  reason_value, wrong_revision_selected, approved_change_exists, ocr_error, linkage_error,
  parameter_not_applicable, source_quality, other, DisagreementKind, kind_value, value_delta,
  missing_in_stage, ambiguous_reference, format_mismatch,
}
use kontur.Domain.Models.{
  DocStage, pd, rd, id, ApprovalStatus, approved, not_approved, unknown, ApprovalBasis, title_block,
  inspector_select, package_default, sole_head, unproven, EvidenceRole, expected, actual, context,
  ExtractionEngine, vector, ocr, vlm, manual,
}
use kontur.Domain.Models.Checks.{ValueError}

-- A text that is no member of its enumeration, a field that is not there, a value of another shape
-- than the code writes, and what a constructor raises.
pub data DecodeError : Type 0 where
  no_member : String → DecodeError
  no_field : String → DecodeError
  malformed : DecodeError
  refused : ValueError → DecodeError

abbrev pub stage_value : DocStage → String
stage_value pd = "PD"
stage_value rd = "RD"
stage_value id = "ID"

abbrev pub approval_value : ApprovalStatus → String
approval_value approved = "APPROVED"
approval_value not_approved = "NOT_APPROVED"
approval_value unknown = "UNKNOWN"

abbrev pub basis_value : ApprovalBasis → String
basis_value title_block = "TITLE_BLOCK"
basis_value inspector_select = "INSPECTOR_SELECT"
basis_value package_default = "PACKAGE_DEFAULT"
basis_value sole_head = "SOLE_HEAD"
basis_value unproven = "UNPROVEN"

abbrev pub role_text : EvidenceRole → String
role_text expected = "expected"
role_text actual = "actual"
role_text context = "context"

abbrev pub engine_value : ExtractionEngine → String
engine_value vector = "vector"
engine_value ocr = "ocr"
engine_value vlm = "vlm"
engine_value manual = "manual"

abbrev pub doc_stages : List DocStage
doc_stages = pd ∷ rd ∷ id ∷ []

abbrev pub approvals : List ApprovalStatus
approvals = approved ∷ not_approved ∷ unknown ∷ []

abbrev pub bases : List ApprovalBasis
bases = title_block ∷ inspector_select ∷ package_default ∷ sole_head ∷ unproven ∷ []

abbrev pub roles : List EvidenceRole
roles = expected ∷ actual ∷ context ∷ []

abbrev pub engines : List ExtractionEngine
engines = vector ∷ ocr ∷ vlm ∷ manual ∷ []

abbrev pub statuses : List FindingStatus
statuses =
    candidate ∷ confirmed_violation ∷ negative_verified ∷ auto_no_difference ∷ missing_evidence
    ∷ not_applicable ∷ not_comparable ∷ low_quality ∷ abstain ∷ clarification_required ∷ suspicion
    ∷ []

abbrev pub priorities : List ReviewPriority
priorities = high ∷ medium ∷ low ∷ []

abbrev pub reasons : List ReasonCode
reasons =
    wrong_revision_selected ∷ approved_change_exists ∷ ocr_error ∷ linkage_error
    ∷ parameter_not_applicable ∷ source_quality ∷ other ∷ []

abbrev pub kinds : List DisagreementKind
kinds = value_delta ∷ missing_in_stage ∷ ambiguous_reference ∷ format_mismatch ∷ []

-- `E(text)` of an enumeration
unfoldable pub member : {A : Type 0} → (A → String) → List A → String → Result DecodeError A
member value members s = or_raise (find (λ a. value a == s) members) (no_member s)

pub member-stage : (a : DocStage) → member stage_value doc_stages (stage_value a) ≡ ok a
unfolding member
member-stage pd = refl
member-stage rd = refl
member-stage id = refl

pub member-approval :
    (a : ApprovalStatus) → member approval_value approvals (approval_value a) ≡ ok a
unfolding member
member-approval approved = refl
member-approval not_approved = refl
member-approval unknown = refl

pub member-basis : (a : ApprovalBasis) → member basis_value bases (basis_value a) ≡ ok a
unfolding member
member-basis title_block = refl
member-basis inspector_select = refl
member-basis package_default = refl
member-basis sole_head = refl
member-basis unproven = refl

pub member-role : (a : EvidenceRole) → member role_text roles (role_text a) ≡ ok a
unfolding member
member-role expected = refl
member-role actual = refl
member-role context = refl

pub member-engine : (a : ExtractionEngine) → member engine_value engines (engine_value a) ≡ ok a
unfolding member
member-engine vector = refl
member-engine ocr = refl
member-engine vlm = refl
member-engine manual = refl

pub member-status : (a : FindingStatus) → member finding_value statuses (finding_value a) ≡ ok a
unfolding member
member-status candidate = refl
member-status confirmed_violation = refl
member-status negative_verified = refl
member-status auto_no_difference = refl
member-status missing_evidence = refl
member-status not_applicable = refl
member-status not_comparable = refl
member-status low_quality = refl
member-status abstain = refl
member-status clarification_required = refl
member-status suspicion = refl

pub member-priority :
    (a : ReviewPriority) → member priority_value priorities (priority_value a) ≡ ok a
unfolding member
member-priority high = refl
member-priority medium = refl
member-priority low = refl

pub member-reason : (a : ReasonCode) → member reason_value reasons (reason_value a) ≡ ok a
unfolding member
member-reason wrong_revision_selected = refl
member-reason approved_change_exists = refl
member-reason ocr_error = refl
member-reason linkage_error = refl
member-reason parameter_not_applicable = refl
member-reason source_quality = refl
member-reason other = refl

pub member-kind : (a : DisagreementKind) → member kind_value kinds (kind_value a) ≡ ok a
unfolding member
member-kind value_delta = refl
member-kind missing_in_stage = refl
member-kind ambiguous_reference = refl
member-kind format_mismatch = refl
