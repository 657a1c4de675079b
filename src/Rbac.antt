-- ===== src/Rbac.antt =====
-- The matrix of rights of presentation/rbac.py. A set of roles is a list without repetitions.
pub mod Rights
use kontur.Prelude.{
  ◌-◌, Bool, true, false, not, Option, none, some, String, List, [], ◌∷◌, is_empty, any, select,
  Result, ok, ◌>>=◌, ◌>>◌, raise_if, ◌==◌, if◌then◌else◌,
}
use kontur.Prelude.{String_eq, by_number_iff, or_raise}
use kontur.Prelude.Dict.{Dict, lookup}

pub data Role : Type 0 where
  inspector supervisor admin : Role

abbrev pub role_value : Role → String
role_value inspector = "INSPECTOR"
role_value supervisor = "SUPERVISOR"
role_value admin = "ADMIN"

-- `Role(text)`, where it does not raise
abbrev pub role_of : String → Option Role
role_of s =
    if s == "INSPECTOR"
    then some inspector
    else if s == "SUPERVISOR"
    then some supervisor
    else if s == "ADMIN"
    then some admin
    else none

abbrev pub same_role : Role → Role → Bool
same_role inspector inspector = true
same_role supervisor supervisor = true
same_role admin admin = true
same_role _ _ = false

pub data AccessError : Type 0 where
  unknown_operation : String → AccessError
  authentication_required : AccessError
  permission_denied : AccessError

abbrev pub required_roles : Dict (List Role)
required_roles =
    ("uploadDocuments", inspector ∷ supervisor ∷ [])
    ∷ ("getSystemCapabilities", inspector ∷ supervisor ∷ admin ∷ [])
    ∷ ("scoreEvaluation", inspector ∷ supervisor ∷ admin ∷ [])
    ∷ ("getProcessStatus", inspector ∷ supervisor ∷ admin ∷ [])
    ∷ ("loadDemoKit", inspector ∷ supervisor ∷ [])
    ∷ ("getProcessDocuments", inspector ∷ supervisor ∷ admin ∷ [])
    ∷ ("listProcessFindings", inspector ∷ supervisor ∷ admin ∷ [])
    ∷ ("getFilePagePng", inspector ∷ supervisor ∷ admin ∷ [])
    ∷ ("getProtocol", inspector ∷ supervisor ∷ admin ∷ [])
    ∷ ("getRevisionDiff", inspector ∷ supervisor ∷ admin ∷ [])
    ∷ ("getProtocolDocx", inspector ∷ supervisor ∷ admin ∷ [])
    ∷ ("getProtocolXml", inspector ∷ supervisor ∷ admin ∷ [])
    ∷ ("getProtocolPdf", inspector ∷ supervisor ∷ admin ∷ [])
    ∷ ("getAuditLog", inspector ∷ supervisor ∷ admin ∷ [])
    ∷ ("recordUiEvent", inspector ∷ supervisor ∷ admin ∷ [])
    ∷ ("getEvidenceCard", inspector ∷ supervisor ∷ admin ∷ [])
    ∷ ("reviewFinding", inspector ∷ supervisor ∷ [])
    ∷ ("confirmCandidates", inspector ∷ supervisor ∷ [])
    ∷ ("startVerification", inspector ∷ supervisor ∷ [])
    ∷ ("completeVerification", inspector ∷ supervisor ∷ [])
    ∷ ("finalizeProtocol", inspector ∷ supervisor ∷ [])
    ∷ ("unfinalizeProtocol", inspector ∷ supervisor ∷ admin ∷ [])
    ∷ ("selectRevision", inspector ∷ supervisor ∷ [])
    ∷ ("syncInspection", inspector ∷ supervisor ∷ admin ∷ [])
    ∷ []

abbrev pub legal_decision_operations : List String
legal_decision_operations =
    "reviewFinding" ∷ "confirmCandidates" ∷ "finalizeProtocol" ∷ "selectRevision" ∷ []

unfoldable pub roles_for : String → Result AccessError (List Role)
roles_for operation_id =
    or_raise (lookup operation_id required_roles) (unknown_operation operation_id)

-- The texts that name a role, as roles; the others are passed over.
abbrev pub recognized : List String → List Role
recognized [] = []
recognized (s ∷ ss) = elim (role_of s) [ none ↦ recognized ss | some r ↦ r ∷ recognized ss ]

unfoldable pub authorize : String → List String → Result AccessError (List Role)
unfolding roles_for
authorize operation_id roles = do
  allowed ← roles_for operation_id
  raise_if (is_empty roles) authentication_required
  let granted = select (λ r. any (same_role r) (recognized roles)) allowed
  raise_if (is_empty granted) permission_denied
  ok granted
