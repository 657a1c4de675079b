-- ===== src/Domain/StatusMap.antt =====
-- backend/src/kontur/domain/status_map.py: the names that leave for the outside.
use kontur.Prelude.{Bool, Option, none, some, String, elem}
use Prim.Native.String.{◌++◌ as concat}
use kontur.Domain.Status.{
  Completeness, uploaded, partial, missing, ProcessState, pending, parsing, ready, verifying,
  completed, finalized, FindingStatus, FindingStatus_eq, wire_finding_statuses,
}
use kontur.Domain.Models.{DocStage, pd, rd, id}

unfoldable pub protocol_status : ProcessState → Option String
protocol_status ready = some "READY"
protocol_status verifying = some "VERIFYING"
protocol_status completed = some "VERIFICATION_COMPLETED"
protocol_status finalized = some "PROTOCOL_FINALIZED"
protocol_status pending = none
protocol_status parsing = none

unfoldable pub tz_upload_prefix : DocStage → String
tz_upload_prefix pd = "PD"
tz_upload_prefix rd = "RD"
tz_upload_prefix id = "ID"

abbrev pub completeness_value : Completeness → String
completeness_value uploaded = "UPLOADED"
completeness_value partial = "PARTIAL"
completeness_value missing = "MISSING"

unfoldable pub tz_upload_status : DocStage → Completeness → String
unfolding tz_upload_prefix
tz_upload_status stage completeness =
    concat (tz_upload_prefix stage) (concat "_" (completeness_value completeness))

unfoldable pub on_the_wire : FindingStatus → Bool
on_the_wire status = elem status wire_finding_statuses
