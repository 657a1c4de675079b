-- ===== src/Domain/Status.antt =====
-- backend/src/kontur/domain/statuses.py: the status enumerations and the sets over them.
use kontur.Prelude.{ℕ, ◌≡◌, ◌↔◌, true, String, List, [], ◌∷◌, arith, nat_eq, Eq, by_number_iff}

pub data Completeness : Type 0 where
  uploaded partial missing : Completeness

pub data ProcessState : Type 0 where
  pending parsing ready verifying completed finalized : ProcessState

pub data Scenario : Type 0 where
  full pd_rd_only pd_id_only rd_id_only single_only partially_loaded : Scenario

pub data FindingStatus : Type 0 where
  candidate confirmed_violation negative_verified auto_no_difference : FindingStatus
  missing_evidence not_applicable not_comparable low_quality abstain : FindingStatus
  clarification_required suspicion : FindingStatus

pub data ReasonCode : Type 0 where
  wrong_revision_selected approved_change_exists ocr_error linkage_error : ReasonCode
  parameter_not_applicable source_quality other : ReasonCode

pub data SyncState : Type 0 where
  not_requested pending_sync syncing synced retry_wait failed_terminal : SyncState

pub data ReviewPriority : Type 0 where
  high medium low : ReviewPriority

pub data DisagreementKind : Type 0 where
  value_delta missing_in_stage ambiguous_reference format_mismatch : DisagreementKind

abbrev pub finding_number : FindingStatus → ℕ
finding_number candidate = 0
finding_number confirmed_violation = 1
finding_number negative_verified = 2
finding_number auto_no_difference = 3
finding_number missing_evidence = 4
finding_number not_applicable = 5
finding_number not_comparable = 6
finding_number low_quality = 7
finding_number abstain = 8
finding_number clarification_required = 9
finding_number suspicion = 10

finding_number_inj : (a b : FindingStatus) → finding_number a ≡ finding_number b → a ≡ b
finding_number_inj a b h = ground arith

pub finding_iff :
    (a b : FindingStatus) → (nat_eq (finding_number a) (finding_number b) ≡ true) ↔ (a ≡ b)
finding_iff = by_number_iff finding_number finding_number_inj

instance abbrev pub FindingStatus_eq : Eq FindingStatus
FindingStatus_eq = record {
  equals = λ a b. nat_eq (finding_number a) (finding_number b);
  equals_iff = finding_iff;
}

abbrev process_number : ProcessState → ℕ
process_number pending = 0
process_number parsing = 1
process_number ready = 2
process_number verifying = 3
process_number completed = 4
process_number finalized = 5

process_number_inj : (a b : ProcessState) → process_number a ≡ process_number b → a ≡ b
process_number_inj a b h = ground arith

pub process_iff :
    (a b : ProcessState) → (nat_eq (process_number a) (process_number b) ≡ true) ↔ (a ≡ b)
process_iff = by_number_iff process_number process_number_inj

instance abbrev pub ProcessState_eq : Eq ProcessState
ProcessState_eq = record {
  equals = λ a b. nat_eq (process_number a) (process_number b);
  equals_iff = process_iff;
}

abbrev sync_number : SyncState → ℕ
sync_number not_requested = 0
sync_number pending_sync = 1
sync_number syncing = 2
sync_number synced = 3
sync_number retry_wait = 4
sync_number failed_terminal = 5

sync_number_inj : (a b : SyncState) → sync_number a ≡ sync_number b → a ≡ b
sync_number_inj a b h = ground arith

pub sync_iff : (a b : SyncState) → (nat_eq (sync_number a) (sync_number b) ≡ true) ↔ (a ≡ b)
sync_iff = by_number_iff sync_number sync_number_inj

instance abbrev pub SyncState_eq : Eq SyncState
SyncState_eq = record {
  equals = λ a b. nat_eq (sync_number a) (sync_number b);
  equals_iff = sync_iff;
}

abbrev completeness_number : Completeness → ℕ
completeness_number uploaded = 0
completeness_number partial = 1
completeness_number missing = 2

completeness_number_inj :
    (a b : Completeness) → completeness_number a ≡ completeness_number b → a ≡ b
completeness_number_inj a b h = ground arith

pub completeness_iff :
    (a b : Completeness) → (nat_eq (completeness_number a) (completeness_number b) ≡ true) ↔ (a ≡ b)
completeness_iff = by_number_iff completeness_number completeness_number_inj

instance abbrev pub Completeness_eq : Eq Completeness
Completeness_eq = record {
  equals = λ a b. nat_eq (completeness_number a) (completeness_number b);
  equals_iff = completeness_iff;
}

-- The members' texts, as they stand in logs and documents.
abbrev pub process_value : ProcessState → String
process_value pending = "PENDING"
process_value parsing = "PARSING"
process_value ready = "READY"
process_value verifying = "VERIFYING"
process_value completed = "COMPLETED"
process_value finalized = "FINALIZED"

abbrev pub finding_value : FindingStatus → String
finding_value candidate = "CANDIDATE"
finding_value confirmed_violation = "CONFIRMED_VIOLATION"
finding_value negative_verified = "NEGATIVE_VERIFIED"
finding_value auto_no_difference = "AUTO_NO_DIFFERENCE"
finding_value missing_evidence = "MISSING_EVIDENCE"
finding_value not_applicable = "NOT_APPLICABLE"
finding_value not_comparable = "NOT_COMPARABLE"
finding_value low_quality = "LOW_QUALITY"
finding_value abstain = "ABSTAIN"
finding_value clarification_required = "CLARIFICATION_REQUIRED"
finding_value suspicion = "SUSPICION"

abbrev pub priority_value : ReviewPriority → String
priority_value high = "HIGH"
priority_value medium = "MEDIUM"
priority_value low = "LOW"

abbrev pub kind_value : DisagreementKind → String
kind_value value_delta = "VALUE_DELTA"
kind_value missing_in_stage = "MISSING_IN_STAGE"
kind_value ambiguous_reference = "AMBIGUOUS_REFERENCE"
kind_value format_mismatch = "FORMAT_MISMATCH"

abbrev pub reason_value : ReasonCode → String
reason_value wrong_revision_selected = "WRONG_REVISION_SELECTED"
reason_value approved_change_exists = "APPROVED_CHANGE_EXISTS"
reason_value ocr_error = "OCR_ERROR"
reason_value linkage_error = "LINKAGE_ERROR"
reason_value parameter_not_applicable = "PARAMETER_NOT_APPLICABLE"
reason_value source_quality = "SOURCE_QUALITY"
reason_value other = "OTHER"

abbrev pub scenario_value : Scenario → String
scenario_value full = "FULL"
scenario_value pd_rd_only = "PD_RD_ONLY"
scenario_value pd_id_only = "PD_ID_ONLY"
scenario_value rd_id_only = "RD_ID_ONLY"
scenario_value single_only = "SINGLE_ONLY"
scenario_value partially_loaded = "PARTIALLY_LOADED"

-- The only status that counts as a violation.
abbrev pub violation_statuses : List FindingStatus
violation_statuses = confirmed_violation ∷ []

abbrev pub data_quality_statuses : List FindingStatus
data_quality_statuses =
    missing_evidence ∷ not_applicable ∷ not_comparable ∷ low_quality ∷ abstain
    ∷ clarification_required ∷ []

-- What a machine may not assign.
abbrev pub human_only_statuses : List FindingStatus
human_only_statuses = confirmed_violation ∷ negative_verified ∷ []

-- What may leave for the outside protocol.
abbrev pub wire_finding_statuses : List FindingStatus
wire_finding_statuses =
    candidate ∷ confirmed_violation ∷ negative_verified ∷ missing_evidence ∷ not_applicable
    ∷ not_comparable ∷ low_quality ∷ abstain ∷ clarification_required ∷ suspicion ∷ []

abbrev pub statuses_requiring_evidence : List FindingStatus
statuses_requiring_evidence =
    candidate ∷ confirmed_violation ∷ negative_verified ∷ auto_no_difference ∷ suspicion ∷ []
