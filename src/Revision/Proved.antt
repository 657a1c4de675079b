-- ===== src/Revision/Proved.antt =====
-- What proves the approval of a resolved revision.
use kontur.Prelude.{
  ◌≡◌, refl, sym, ap, ◌∙◌, ◌⊎◌, inl, inr, Bool, true, false, not, ◌&&◌, Option, String, List, any,
  select, ok, ◌==◌, Bool-cases, arith, ◌≢◌,
}
use kontur.Prelude.{String_eq}
use kontur.Domain.Models.{
  DocStage, DocumentRef, ApprovalStatus, ApprovalBasis, approved, not_approved, unknown, pd,
}
use kontur.Revision.{
  DocStage_eq, ApprovalStatus_eq, resolved, RevisionResolution, EtalonPolicy, sole_head,
  allows_sole_head,
}
use kontur.Revision.Approval.{approval_with_basis, overlay_inspector_approval}
use kontur.Revision.Resolve.{
  eligible, is_unproved, approved_other, finish_head, resolve_revision, resolved_to, chosen_as,
}
use kontur.Revision.Members.{chain_of, IsCandidate}
use kontur.Revision.Head.{IsChosen, resolved_is_the_head}

-- How the approval of a resolved revision is proved. Either the document is returned as it was given, and
-- is approved by its stamp or not of the project stage; or it bears no stamp, and the inspector has chosen
-- it, which it then states; or it bears no stamp and nobody has chosen it, but it is the only head, the
-- policy takes such a one, and nothing else in the chain is approved.
abbrev pub IsProved : EtalonPolicy → DocumentRef → List DocumentRef → Bool → DocumentRef → Type 0
IsProved policy chosen docs inspector document =
    ((document ≡ chosen)
      × (chosen.approval_status ≢ not_approved)
      × ((chosen.doc_stage ≢ pd) ⊎ (chosen.approval_status ≡ approved)))
    ⊎ ((chosen.approval_status ≡ unknown)
        × (inspector ≡ true)
        × (document ≡ record chosen {
          approval_status = approved;
          approval_basis = ApprovalBasis.inspector_select;
        }))
    ⊎ ((chosen.approval_status ≡ unknown)
        × (inspector ≡ false)
        × (policy ≡ sole_head)
        × (any (λ doc. not (doc.file_id == chosen.file_id) && doc.approval_status == approved) docs
            ≡ false)
        × (document ≡ record chosen { approval_basis = ApprovalBasis.sole_head }))

not_rejected :
    (stamp : ApprovalStatus)
    → not (stamp == not_approved) ≡ true
    → (stamp ≢ not_approved) × ((stamp ≡ approved) ⊎ ((stamp == unknown) ≡ true))
not_rejected approved h = (ground arith, inl refl)
not_rejected unknown h = (ground arith, inr refl)
not_rejected not_approved h = cc

stamped :
    (policy : EtalonPolicy) (chosen : DocumentRef) (docs : List DocumentRef) (inspector : Bool)
    → eligible chosen ≡ true
    → is_unproved chosen ≡ false
    → IsProved policy chosen docs inspector chosen
stamped policy chosen docs inspector h e =
    let (kept, by_stamp) = not_rejected chosen.approval_status h in
    inl (
      refl,
      kept,
      elim by_stamp [
        | inl proved ↦ inr proved
        | inr missing ↦ inl (λ at_pd. ground (arith, e, missing, at_pd))
      ],
    )

without_stamp :
    (chosen : DocumentRef) → is_unproved chosen ≡ true → chosen.approval_status ≡ unknown
without_stamp chosen e =
    ground (arith, e, ApprovalStatus_eq.equals_iff chosen.approval_status unknown)

finish_head-IsProved :
    (policy : EtalonPolicy) (chosen : DocumentRef) (docs : List DocumentRef) (inspector : Bool)
    → eligible chosen ≡ true
    → (finish_head policy chosen docs inspector).status ≡ resolved
    → (document : DocumentRef) × (finish_head policy chosen docs inspector
        ≡ resolved_to document docs)
      × IsProved policy chosen docs inspector document
unfolding finish_head approval_with_basis overlay_inspector_approval
finish_head-IsProved policy chosen docs true h is_resolved =
    elim (Bool-cases (is_unproved chosen)) [
      | inl e ↦
          let at_stamp = without_stamp chosen e in
          (
            chosen_as chosen (approved, ApprovalBasis.inspector_select),
            rw (e, at_stamp) refl,
            inr (inl (at_stamp, refl, refl)),
          )
      | inr e ↦ (chosen, rw e refl, stamped policy chosen docs true h e)
    ]
finish_head-IsProved policy chosen docs false h is_resolved =
    elim (Bool-cases (is_unproved chosen)) [
      | inl e ↦ elim (Bool-cases (allows_sole_head policy && not (approved_other chosen docs))) [
        | inl e' ↦ (
          record chosen { approval_basis = ApprovalBasis.sole_head },
          rw (e, e') refl,
          inr (inr (without_stamp chosen e, refl, ground (arith, e'), ground (arith, e'), refl)),
        )
        | inr e' ↦ absurd ground (arith, is_resolved, e, e')
      ]
      | inr e ↦ (chosen, rw e refl, stamped policy chosen docs false h e)
    ]

-- The document of a resolved revision is one of the given documents, and is never one that was rejected.
-- It is the only one that the inspector has selected in its chain, or the only head of a chain in which
-- none is selected. If it is of the project stage, its stamp approves it, or the inspector's selection of
-- it does, or else the policy takes the only head of a chain in which nothing else is approved; but for
-- this approval it is returned as it was given.
pub etalon-IsProved :
    (policy : EtalonPolicy) (documents : List DocumentRef) (stage : DocStage)
    (anchor : Option DocumentRef) (selected : List String) {r : RevisionResolution}
    → resolve_revision policy documents stage anchor selected ≡ ok r
    → r.status ≡ resolved
    → (chosen : DocumentRef) × (inspector : Bool) × (document : DocumentRef) × IsCandidate documents
        stage chosen
      × IsChosen selected (select eligible (chain_of stage anchor documents)) chosen inspector
      × (r ≡ resolved_to document (select eligible (chain_of stage anchor documents)))
      × IsProved policy chosen
          (select eligible (chain_of stage anchor documents))
          inspector
          document
etalon-IsProved policy documents stage anchor selected h is_resolved =
    let (chosen, inspector, candidate, is_chosen, at_r) =
      resolved_is_the_head policy documents stage anchor selected h is_resolved in
    let (document, at_outcome, proved) =
      finish_head-IsProved policy chosen (select eligible (chain_of stage anchor documents))
        inspector candidate.2 (ap (λ q. q.status) (sym at_r) ∙ is_resolved) in
    (chosen, inspector, document, candidate, is_chosen, at_r ∙ at_outcome, proved)
