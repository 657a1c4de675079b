-- ===== src/Revision/Approval.antt =====
-- What an inspector's choice makes of the stamp of a document.
use kontur.Prelude.{Bool, true, if◌then◌else◌}
use kontur.Domain.Models.{
  ApprovalStatus, approved, not_approved, unknown, ApprovalBasis, inspector_select,
}

unfoldable pub overlay_inspector_approval : ApprovalStatus → Bool → ApprovalStatus
overlay_inspector_approval not_approved selected = not_approved
overlay_inspector_approval approved selected = approved
overlay_inspector_approval unknown selected = if selected then approved else unknown

unfoldable pub approval_with_basis :
    ApprovalStatus → ApprovalBasis → Bool → ApprovalStatus × ApprovalBasis
unfolding overlay_inspector_approval
approval_with_basis unknown basis true = (overlay_inspector_approval unknown true, inspector_select)
approval_with_basis stamp basis selected = (overlay_inspector_approval stamp selected, basis)
