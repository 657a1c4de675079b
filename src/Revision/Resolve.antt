-- ===== src/Revision/Resolve.antt =====
-- One stage of one package: `resolve_revision` and what it calls.
use kontur.Prelude.{
  Bool, true, false, not, ◌&&◌, Option, none, some, String, List, [], ◌∷◌, map, length, is_empty,
  any, select, find, Result, ok, err, ◌>>=◌, ◌>>◌, raise_if, ◌==◌, elem, ltb, if◌then◌else◌,
}
use kontur.Prelude.{String_eq}
use kontur.Prelude.Text.{is_blank}
use Prim.Native.String.{compare}
use text.Mathlib.Text.{is_lt}
use kontur.Domain.Models.{
  DocStage, DocumentRef, ApprovalStatus, ApprovalBasis, approved, not_approved, unknown, pd,
}
use kontur.Revision.{
  DocStage_eq, ApprovalStatus_eq, RevisionConflict, several_documents, unread_code, several_choices,
  cycle, several_heads, ResolveStatus, resolved, missing_evidence, clarification_required,
  ConflictReason, foreign_anchor, no_documents, all_rejected, approval_unknown, RevisionResolution,
  EtalonPolicy, allows_sole_head,
}
use kontur.Revision.Blanks.{blank_components}
use kontur.Revision.Approval.{approval_with_basis}

abbrev pub Key : Type 0
Key = String × String × String

abbrev text_or_empty : Option String → String
text_or_empty none = ""
text_or_empty (some s) = s

unfoldable pub identity_key : DocumentRef → Option Key
identity_key doc =
    if is_blank doc.document_code
    then none
    else some (doc.document_code, text_or_empty doc.sheet, text_or_empty doc.discipline)

abbrev pub same_key : Key → Key → Bool
same_key (a, b, c) (a', b', c') = a == a' && (b == b' && c == c')

-- `_identity_key(item) == key`
abbrev pub has_key : Option Key → DocumentRef → Bool
has_key key doc = same (identity_key doc) key
  where
    same : Option Key → Option Key → Bool
    same none none = true
    same (some k) (some k') = same_key k k'
    same _ _ = false

-- The keys of a set of documents, each once.
abbrev pub known_keys : List DocumentRef → List Key
known_keys [] = []
known_keys (doc ∷ docs) = with_key (identity_key doc) (known_keys docs)
  where
    with_key : Option Key → List Key → List Key
    with_key none keys = keys
    with_key (some key) keys = if any (same_key key) keys then keys else key ∷ keys

-- A sorted list without repetitions.
abbrev insert_text : String → List String → List String
insert_text s [] = s ∷ []
insert_text s (t ∷ ts) =
    let rest = insert_text s ts in
    if s == t then t ∷ ts else if is_lt (compare s t) then s ∷ t ∷ ts else t ∷ rest

abbrev pub labels : List Key → List String
labels [] = []
labels ((code, _, _) ∷ keys) = insert_text code (labels keys)

unfoldable pub reject_mixed_identities :
    List DocumentRef → DocStage → Result RevisionConflict (Unit {0})
unfolding identity_key
reject_mixed_identities docs stage = do
  raise_if (ltb 1 (length (known_keys docs))) (several_documents stage (labels (known_keys docs)))
  raise_if (not (is_empty (known_keys docs)) && any (has_key none) docs) (unread_code stage)

-- `_eligible`
abbrev pub eligible : DocumentRef → Bool
eligible doc = not (doc.approval_status == not_approved)

-- `doc.predecessor_file_id == id`
abbrev pub names : String → Option String → Bool
names file_id none = false
names file_id (some other) = other == file_id

-- Has an eligible document of the stage the candidate as its predecessor?
unfoldable pub check_stale_revision : DocumentRef → List DocumentRef → Bool
check_stale_revision candidate = any (λ item.
    item.doc_stage == candidate.doc_stage
    && (not (item.file_id == candidate.file_id)
        && (eligible item && names candidate.file_id item.predecessor_file_id)))

abbrev pub is_unproved : DocumentRef → Bool
is_unproved doc = doc.doc_stage == pd && doc.approval_status == unknown

abbrev pub approved_other : DocumentRef → List DocumentRef → Bool
approved_other chosen =
    any (λ item. not (item.file_id == chosen.file_id) && item.approval_status == approved)

abbrev pub chosen_as : DocumentRef → ApprovalStatus × ApprovalBasis → DocumentRef
chosen_as doc (status, basis) = record doc { approval_status = status; approval_basis = basis }

abbrev pub resolved_to : DocumentRef → List DocumentRef → RevisionResolution
resolved_to chosen docs = record {
  status = resolved;
  resolution = some (record { document = chosen; is_stale = check_stale_revision chosen docs });
  conflict_reason = none;
}

abbrev pub unresolved : ResolveStatus → ConflictReason → RevisionResolution
unresolved status reason = record {
  status = status;
  resolution = none;
  conflict_reason = some reason;
}

unfoldable pub finish_head :
    EtalonPolicy → DocumentRef → List DocumentRef → Bool → RevisionResolution
unfolding approval_with_basis check_stale_revision
finish_head policy chosen docs inspector_selected =
    if inspector_selected && is_unproved chosen
    then resolved_to
        (chosen_as chosen (approval_with_basis chosen.approval_status chosen.approval_basis true))
        docs
    else if is_unproved chosen
    then (if allows_sole_head policy && not (approved_other chosen docs)
        then resolved_to (record chosen { approval_basis = ApprovalBasis.sole_head }) docs
        else unresolved clarification_required approval_unknown)
    else resolved_to chosen docs

abbrev pub ids : List DocumentRef → List String
ids = map (λ doc. doc.file_id)

-- No eligible document is its successor.
abbrev pub is_head : List DocumentRef → DocumentRef → Bool
is_head docs doc = elim doc.successor_file_id [
  | none ↦ true
  | some next ↦ not (elem next (ids docs))
]

abbrev pub from_heads :
    EtalonPolicy
    → DocStage
    → List DocumentRef
    → List DocumentRef
    → Result RevisionConflict RevisionResolution
from_heads policy stage docs [] = err (cycle stage (ids docs))
from_heads policy stage docs (doc ∷ []) = ok (finish_head policy doc docs false)
from_heads policy stage docs (doc ∷ doc' ∷ rest) =
    err (several_heads stage (ids (doc ∷ doc' ∷ rest)))

abbrev pub from_choice :
    EtalonPolicy
    → DocStage
    → List DocumentRef
    → List DocumentRef
    → Result RevisionConflict RevisionResolution
from_choice policy stage docs [] = from_heads policy stage docs (select (is_head docs) docs)
from_choice policy stage docs (doc ∷ []) = ok (finish_head policy doc docs true)
from_choice policy stage docs (doc ∷ doc' ∷ rest) =
    err (several_choices stage (ids (doc ∷ doc' ∷ rest)))

-- From the documents of the stage and of the anchor's chain.
unfoldable pub resolve_chain :
    EtalonPolicy
    → List String
    → DocStage
    → List DocumentRef
    → Result RevisionConflict RevisionResolution
unfolding reject_mixed_identities finish_head
resolve_chain policy selected stage docs =
    if is_empty docs
    then ok (unresolved missing_evidence (no_documents stage))
    else if is_empty (select eligible docs)
    then ok (unresolved clarification_required (all_rejected stage (length docs)))
    else reject_mixed_identities docs stage >>= λ _.
        from_choice policy stage (select eligible docs)
          (select (λ doc. elem doc.file_id selected) (select eligible docs))

-- The documents of the anchor's chain.
abbrev pub of_anchor : DocumentRef → List DocumentRef → List DocumentRef
of_anchor anchor docs = by_key (identity_key anchor)
  where
    or_empty : Option (List DocumentRef) → List DocumentRef
    or_empty none = []
    or_empty (some component) = component

    by_key : Option Key → List DocumentRef
    by_key (some key) = select (has_key (some key)) docs
    by_key none = or_empty (
        find (any (λ item. item.file_id == anchor.file_id))
          (blank_components (select (has_key none) docs)))

-- `policy` is what `etalon_policy` reads of the environment.
unfoldable pub resolve_revision :
    EtalonPolicy
    → List DocumentRef
    → DocStage
    → Option DocumentRef
    → List String
    → Result RevisionConflict RevisionResolution
unfolding resolve_chain identity_key
resolve_revision policy documents stage none selected =
    resolve_chain policy selected stage (select (λ item. item.doc_stage == stage) documents)
resolve_revision policy documents stage (some anchor) selected =
    if not (anchor.doc_stage == stage)
    then ok (unresolved missing_evidence (foreign_anchor anchor.file_id anchor.doc_stage stage))
    else resolve_chain policy selected stage
        (of_anchor anchor (select (λ item. item.doc_stage == stage) documents))
