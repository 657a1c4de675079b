-- ===== src/Domain/Models.antt =====
-- backend/src/kontur/domain/models.py: the entities, and the checks of their `__post_init__`.
-- A type parameter `Float` stands for Python's floats; dates are day numbers and moments are counts
-- of microseconds. A dictionary of features is a list of pairs.
pub mod Checks
use kontur.Prelude.{ℕ, Bool, String, List, Option}
use kontur.Domain.Status.{FindingStatus, ReasonCode, ReviewPriority, DisagreementKind}

pub data DocStage : Type 0 where
  pd rd id : DocStage

pub data ApprovalStatus : Type 0 where
  approved not_approved unknown : ApprovalStatus

pub data ApprovalBasis : Type 0 where
  title_block inspector_select package_default sole_head unproven : ApprovalBasis

pub data EvidenceRole : Type 0 where
  expected actual context : EvidenceRole

pub data ExtractionEngine : Type 0 where
  vector ocr vlm manual : ExtractionEngine

pub record DocumentRef : Type 0 where
  pub file_id : String
  pub file_hash : String
  pub doc_stage : DocStage
  pub document_code : String
  pub revision : String
  pub approval_status : ApprovalStatus
  pub approval_basis : ApprovalBasis
  pub discipline : Option String
  pub approval_date : Option ℕ
  pub sheet : Option String
  pub predecessor_file_id : Option String
  pub successor_file_id : Option String
  pub source_name : String
  pub revision_kind : String

abbrev pub Polygon : Type 0 → Type 0
Polygon Float = List (Float × Float)

-- `str | float | bool`
pub data Value (Float : Type 0) : Type 0 where
  text : String → Value Float
  number : Float → Value Float
  flag : Bool → Value Float

pub record Extraction (Float : Type 0) : Type 0 where
  pub raw_token : String
  pub engine : ExtractionEngine
  pub engine_version : String
  pub confidence : Float
  pub normalized_value : Option (Value Float)
  pub unit : Option String
  pub grounded_in_source_tokens : Bool
  pub second_read_agrees : Option Bool
  pub confidence_features : List (String × Float)

pub record EvidenceFragment (Float : Type 0) : Type 0 where
  pub fragment_id : String
  pub role : EvidenceRole
  pub document : DocumentRef
  pub page : ℕ
  pub polygon_source : Polygon Float
  pub polygon_norm : Polygon Float
  pub extracted : Extraction Float
  pub room_id : Option String

pub record EvidenceGroup (Float : Type 0) : Type 0 where
  pub evidence_group_id : String
  pub object_id : String
  pub rule_code : String
  pub matrix_version : String
  pub fragments : List (EvidenceFragment Float)
  pub resolved_revisions : List DocumentRef
  pub prior_revision_fragments : List (EvidenceFragment Float)

pub record InspectorDecision : Type 0 where
  pub inspector_id : String
  pub action : String
  pub timestamp : ℕ
  pub reason_code : Option ReasonCode
  pub comment : Option String

pub record Finding (Float : Type 0) : Type 0 where
  pub finding_id : String
  pub rule_code : String
  pub finding_status : FindingStatus
  pub review_priority : ReviewPriority
  pub matrix_version : String
  pub rule_version : String
  pub model_version : String
  pub evidence_group_id : Option String
  pub expected_value : Option (Value Float)
  pub actual_value : Option (Value Float)
  pub delta : Option (Value Float)
  pub rationale : String
  pub llm_draft : Option String
  pub inspector_decision : Option InspectorDecision
  pub source_id : Option String
  pub evidence_refs : List String
  pub disagreement_kind : Option DisagreementKind
