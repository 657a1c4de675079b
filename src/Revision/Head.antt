-- ===== src/Revision/Head.antt =====
-- What a resolved revision is: a document of the stage, not rejected, and the one that the inspector has
-- chosen or that alone has no successor.
use kontur.Prelude.{
  ◌≡◌, refl, inl, inr, Bool, true, false, Option, none, some, String, List, [], ◌∷◌, is_empty,
  select, All, All-of-select, ◌>>=◌, ok, >>=-eq-ok, ◌==◌, elem, Bool-cases, arith,
}
use kontur.Prelude.{String_eq}
use mathlib.Core.Path.{subst}
use kontur.Domain.Models.{DocStage, DocumentRef}
use kontur.Revision.{
  DocStage_eq, ApprovalStatus_eq, resolved, missing_evidence, clarification_required, no_documents,
  RevisionResolution, EtalonPolicy,
}
use kontur.Revision.Resolve.{
  eligible, finish_head, is_head, from_heads, from_choice, reject_mixed_identities, resolve_chain,
  resolve_revision, unresolved,
}
use kontur.Revision.Members.{chain_of, IsCandidate, candidates}

-- The one document is the inspector's choice, or nothing is chosen and it alone has no successor.
abbrev pub IsChosen : List String → List DocumentRef → DocumentRef → Bool → Type 0
IsChosen selected docs chosen true = select (λ doc. elem doc.file_id selected) docs ≡ chosen ∷ []
IsChosen selected docs chosen false =
    (select (λ doc. elem doc.file_id selected) docs ≡ [])
    × (select (is_head docs) docs ≡ chosen ∷ [])

from_heads-ok :
    (policy : EtalonPolicy) (stage : DocStage) (docs heads : List DocumentRef)
    {r : RevisionResolution}
    → from_heads policy stage docs heads ≡ ok r
    → (chosen : DocumentRef) × (heads ≡ chosen ∷ []) × (r ≡ finish_head policy chosen docs false)
from_heads-ok policy stage docs [] h = cc
from_heads-ok policy stage docs (doc ∷ []) h = (doc, refl, ground (arith, h))
from_heads-ok policy stage docs (doc ∷ doc' ∷ rest) h = cc

from_choice-ok :
    (policy : EtalonPolicy) (selected : List String) (stage : DocStage)
    (docs chosen_docs : List DocumentRef) {r : RevisionResolution}
    → select (λ doc. elem doc.file_id selected) docs ≡ chosen_docs
    → from_choice policy stage docs chosen_docs ≡ ok r
    → (chosen : DocumentRef) × (inspector : Bool) × IsChosen selected docs chosen inspector
      × (r ≡ finish_head policy chosen docs inspector)
from_choice-ok policy selected stage docs [] e h =
    let (chosen, at_heads, at_r) = from_heads-ok policy stage docs (select (is_head docs) docs) h in
    (chosen, false, (e, at_heads), at_r)
from_choice-ok policy selected stage docs (doc ∷ []) e h = (doc, true, e, ground (arith, h))
from_choice-ok policy selected stage docs (doc ∷ doc' ∷ rest) e h = cc

resolve_chain-ok :
    (policy : EtalonPolicy) (selected : List String) (stage : DocStage) (docs : List DocumentRef)
    {r : RevisionResolution}
    → resolve_chain policy selected stage docs ≡ ok r
    → r.status ≡ resolved
    → (chosen : DocumentRef) × (inspector : Bool) × IsChosen selected
        (select eligible docs)
        chosen
        inspector
      × (r ≡ finish_head policy chosen (select eligible docs) inspector)
unfolding resolve_chain
resolve_chain-ok policy selected stage docs {r} h is_resolved = elim (Bool-cases (is_empty docs)) [
  | inl e ↦
      let at_r : unresolved missing_evidence (no_documents stage) ≡ r = ground (arith, h, e) in
      absurd (ground (arith, is_resolved, at_r))
  | inr e ↦ elim (Bool-cases (is_empty (select eligible docs))) [
    | inl e' ↦
        let at_r : r.status ≡ clarification_required = ground (arith, h, e, e') in
        absurd (ground (arith, is_resolved, at_r))
    | inr e' ↦
        let h' : (reject_mixed_identities docs stage >>= λ _.
        from_choice policy stage (select eligible docs)
          (select (λ doc. elem doc.file_id selected) (select eligible docs)))
            ≡ ok r =
          ground (arith, h, e, e') in
        let (pure, e'', h'') = >>=-eq-ok (reject_mixed_identities docs stage) _ h' in
        from_choice-ok policy selected stage (select eligible docs) _ refl h''
  ]
]

-- A chosen document has what all documents have.
IsChosen-All :
    (P : DocumentRef → Type 0) (selected : List String) (docs : List DocumentRef)
    (chosen : DocumentRef) (inspector : Bool)
    → IsChosen selected docs chosen inspector
    → All P docs
    → P chosen
IsChosen-All P selected docs chosen true h each =
    (subst (All P) h (All-of-select P (λ doc. elem doc.file_id selected) docs each)).0
IsChosen-All P selected docs chosen false h each =
    (subst (All P) h.1 (All-of-select P (is_head docs) docs each)).0

resolve_revision-chain :
    (policy : EtalonPolicy) (documents : List DocumentRef) (stage : DocStage)
    (anchor : Option DocumentRef) (selected : List String) {r : RevisionResolution}
    → resolve_revision policy documents stage anchor selected ≡ ok r
    → r.status ≡ resolved
    → resolve_chain policy selected stage (chain_of stage anchor documents) ≡ ok r
unfolding resolve_revision
resolve_revision-chain policy documents stage none selected h is_resolved = h
resolve_revision-chain policy documents stage (some anchor) selected {r} h is_resolved =
    elim (Bool-cases (anchor.doc_stage == stage)) [
      | inl e ↦ ground (arith, h, e)
      | inr e ↦
          let at_r : r.status ≡ missing_evidence = ground (arith, h, e) in
          absurd (ground (arith, is_resolved, at_r))
    ]

-- A revision is resolved only to a document that was given, of the stage and not rejected, which is
-- the single choice of the inspector in its chain or, where the inspector has chosen none of it, the
-- single one without a successor; and what is returned is the end of the procedure for that document.
pub resolved_is_the_head :
    (policy : EtalonPolicy) (documents : List DocumentRef) (stage : DocStage)
    (anchor : Option DocumentRef) (selected : List String) {r : RevisionResolution}
    → resolve_revision policy documents stage anchor selected ≡ ok r
    → r.status ≡ resolved
    → (chosen : DocumentRef) × (inspector : Bool) × IsCandidate documents stage chosen
      × IsChosen selected (select eligible (chain_of stage anchor documents)) chosen inspector
      × (r
          ≡ finish_head policy chosen (select eligible (chain_of stage anchor documents)) inspector)
resolved_is_the_head policy documents stage anchor selected h is_resolved =
    let chain = chain_of stage anchor documents in
    let (chosen, inspector, is_chosen, at_r) =
      resolve_chain-ok policy selected stage chain
        (resolve_revision-chain policy documents stage anchor selected h is_resolved) is_resolved in
    (
      chosen,
      inspector,
      IsChosen-All (IsCandidate documents stage) selected (select eligible chain) chosen inspector
          is_chosen (candidates documents stage anchor),
      is_chosen,
      at_r,
    )
