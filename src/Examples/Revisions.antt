-- ===== src/Examples/Revisions.antt =====
-- Packages of documents through backend/src/kontur/application/revision_resolver.py.
use kontur.Prelude.{◌≡◌, refl, Bool, none, some, List, [], ◌∷◌, All, select, find, ok, ◌==◌, arith}
use kontur.Prelude.Dict.{lookup, insert}
use kontur.Domain.Models.{DocumentRef, pd, unknown, unproven, ApprovalBasis}
use kontur.Revision.{DocStage_eq, RevisionResolution, sole_head}
use kontur.Revision.Blanks.{
  components_with, blank_components, linked_parents, find_root, link_all, group_all, union,
  union_roots,
}
use kontur.Revision.Names.{NameRules}
use kontur.Revision.Resolve.{
  eligible, identity_key, has_key, finish_head, resolved_to, check_stale_revision,
  reject_mixed_identities, resolve_chain, resolve_revision,
}
use kontur.Revision.Members.{chain_of, IsCandidate}
use kontur.Revision.Head.{IsChosen, resolved_is_the_head}
use kontur.Revision.Proved.{IsProved, etalon-IsProved}
use kontur.Revision.Heads.{resolve_heads_by_identity}
use kontur.Revision.Isolation.{heads_are_isolated, is_head_of, head_of}
use kontur.Revision.Enough.{fuel_is_enough}

abbrev pub first : DocumentRef
first = record {
  file_id = "a1";
  file_hash = "h1";
  doc_stage = pd;
  document_code = "A";
  revision = "1";
  approval_status = unknown;
  approval_basis = unproven;
  discipline = none;
  approval_date = none;
  sheet = none;
  predecessor_file_id = none;
  successor_file_id = some "a2";
  source_name = "A.pdf";
  revision_kind = "";
}

abbrev second : DocumentRef
second = record first {
  file_id = "a2";
  file_hash = "h2";
  revision = "2";
  predecessor_file_id = some "a1";
  successor_file_id = none;
}

abbrev foreign : DocumentRef
foreign = record second { file_id = "b1"; document_code = "B" }

abbrev foreign_too : DocumentRef
foreign_too = record foreign { file_id = "b2" }

abbrev chain : List DocumentRef
chain = first ∷ second ∷ []

-- The second revision is taken, as the only head.
abbrev taken : RevisionResolution
taken = resolved_to (record second { approval_basis = ApprovalBasis.sole_head }) chain

resolve_runs : resolve_revision sole_head chain pd none [] ≡ ok taken
unfolding resolve_revision resolve_chain reject_mixed_identities identity_key finish_head
    check_stale_revision
resolve_runs = refl

resolved_is_the_head_example :
    (chosen : DocumentRef) × (inspector : Bool) × IsCandidate chain pd chosen
    × IsChosen [] (select eligible (chain_of pd none chain)) chosen inspector
    × (taken ≡ finish_head sole_head chosen (select eligible (chain_of pd none chain)) inspector)
resolved_is_the_head_example = resolved_is_the_head sole_head chain pd none [] resolve_runs refl

etalon-IsProved_example :
    (chosen : DocumentRef) × (inspector : Bool) × (document : DocumentRef) × IsCandidate chain pd
      chosen
    × IsChosen [] (select eligible (chain_of pd none chain)) chosen inspector
    × (taken ≡ resolved_to document (select eligible (chain_of pd none chain)))
    × IsProved sole_head chosen (select eligible (chain_of pd none chain)) inspector document
etalon-IsProved_example = etalon-IsProved sole_head chain pd none [] resolve_runs refl

abbrev rules : NameRules
rules = record {
  without_copy = λ s. s;
  without_marks = λ s. s;
  letters = λ s. s;
  marks = λ s. [];
  number = λ s. none;
}

-- Two heads of the code B are a conflict of that code only.
abbrev uploaded : List DocumentRef
uploaded = first ∷ foreign ∷ second ∷ foreign_too ∷ []

heads_are_isolated_example :
    find (is_head_of ("A", "", "")) (resolve_heads_by_identity rules sole_head uploaded pd [])
    ≡ head_of rules sole_head pd []
        ("A", "", "")
        (select (has_key (some ("A", "", ""))) (select (λ item. item.doc_stage == pd) uploaded))
heads_are_isolated_example = heads_are_isolated rules sole_head pd [] uploaded ("A", "", "")

-- Two linked_parents documents without a code, and one for itself.
abbrev blanks : List DocumentRef
blanks =
    record first { document_code = "" }
    ∷ record foreign { document_code = ""; predecessor_file_id = none }
    ∷ record second { document_code = "" }
    ∷ []

components_run :
    blank_components blanks
    ≡ (record first { document_code = "" } ∷ record second { document_code = "" } ∷ [])
      ∷ (record foreign { document_code = ""; predecessor_file_id = none } ∷ [])
      ∷ []
unfolding blank_components link_all group_all union union_roots find_root lookup insert
components_run = refl

fuel_is_enough_example :
    (components_with 9 blanks ≡ blank_components blanks)
    × All
        (λ item.
          lookup
            (find_root 9 (linked_parents 9 blanks) item.file_id).0
            (find_root 9 (linked_parents 9 blanks) item.file_id).1
          ≡ some (find_root 9 (linked_parents 9 blanks) item.file_id).0)
        blanks
fuel_is_enough_example = fuel_is_enough blanks 9 (omega arith)
