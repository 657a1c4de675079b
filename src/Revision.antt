-- ===== src/Revision.antt =====
-- backend/src/kontur/application/revision_resolver.py: which revision of a document is compared.
pub mod Approval
pub mod Blanks
pub mod Names
pub mod Heads
pub mod Resolve
pub mod Members
pub mod Head
pub mod Proved
pub mod Isolation
pub mod Forest
pub mod Linking
pub mod Enough
use kontur.Prelude.{ℕ, ◌≡◌, true, Bool, Option, String, List, nat_eq, Eq, by_number_iff, arith}
use kontur.Domain.Models.{
  DocStage, DocumentRef, ApprovalStatus, approved, not_approved, unknown, pd, rd, id,
}

abbrev doc_stage_number : DocStage → ℕ
doc_stage_number pd = 0
doc_stage_number rd = 1
doc_stage_number id = 2

pub doc_stage_number_inj : (a b : DocStage) → doc_stage_number a ≡ doc_stage_number b → a ≡ b
doc_stage_number_inj a b h = ground arith

instance abbrev pub DocStage_eq : Eq DocStage
DocStage_eq = record {
  equals = λ a b. nat_eq (doc_stage_number a) (doc_stage_number b);
  equals_iff = by_number_iff doc_stage_number doc_stage_number_inj;
}

abbrev approval_number : ApprovalStatus → ℕ
approval_number approved = 0
approval_number not_approved = 1
approval_number unknown = 2

pub approval_number_inj : (a b : ApprovalStatus) → approval_number a ≡ approval_number b → a ≡ b
approval_number_inj a b h = ground arith

instance abbrev pub ApprovalStatus_eq : Eq ApprovalStatus
ApprovalStatus_eq = record {
  equals = λ a b. nat_eq (approval_number a) (approval_number b);
  equals_iff = by_number_iff approval_number approval_number_inj;
}

-- A `RevisionConflict`, with what its text names: codes or identifiers of files.
pub data RevisionConflict : Type 0 where
  several_documents : DocStage → List String → RevisionConflict
  unread_code : DocStage → RevisionConflict
  several_choices : DocStage → List String → RevisionConflict
  cycle : DocStage → List String → RevisionConflict
  several_heads : DocStage → List String → RevisionConflict
  of_filenames : String → RevisionConflict

pub data ResolveStatus : Type 0 where
  resolved missing_evidence clarification_required : ResolveStatus

-- The text of `conflict_reason`, with what it names.
pub data ConflictReason : Type 0 where
  foreign_anchor : String → DocStage → DocStage → ConflictReason
  no_documents : DocStage → ConflictReason
  all_rejected : DocStage → ℕ → ConflictReason
  approval_unknown : ConflictReason
  conflict : RevisionConflict → ConflictReason

pub record ResolvedRevision : Type 0 where
  pub document : DocumentRef
  pub is_stale : Bool

pub record RevisionResolution : Type 0 where
  pub status : ResolveStatus
  pub resolution : Option ResolvedRevision
  pub conflict_reason : Option ConflictReason

-- What `etalon_policy` reads of the environment.
pub data EtalonPolicy : Type 0 where
  sole_head strict : EtalonPolicy

abbrev pub allows_sole_head : EtalonPolicy → Bool
allows_sole_head sole_head = true
allows_sole_head strict = Bool.false
