-- ===== src/Review/Splitting.antt =====
-- Splitting a composite candidate into atomic ones.
use kontur.Prelude.{
  ℕ, ◌+◌, ◌≡◌, refl, Bool, true, not, ◌&&◌, none, some, String, List, [], ◌∷◌, map, length,
  is_empty, ◌==◌, elem, leb, if◌then◌else◌, arith,
}
use kontur.Prelude.{returned, String_eq}
use kontur.Prelude.Text.{is_blank}
use kontur.Domain.Status.{FindingStatus_eq, candidate, ProcessState_eq}
use kontur.Domain.Machine.{Actor}
use kontur.Domain.Models.{EvidenceGroup, EvidenceFragment, Finding}
use kontur.Domain.Models.Checks.{new_finding}
use kontur.Review.{split_from, split}
use Prim.Native.String.{◌++◌ as concat}
use kontur.Prelude.Text.Decimal.{decimal}

module _ {Float : Type 0} (finding : Finding Float) where
  -- The finding of the `index`-th part.
  abbrev pub as_part : ℕ → EvidenceGroup Float → Finding Float
  as_part index group = record finding {
    finding_id = concat finding.finding_id (concat ":" (decimal index));
    evidence_group_id = some group.evidence_group_id;
    evidence_refs = map (λ (item : EvidenceFragment Float). item.fragment_id) group.fragments;
    inspector_decision = none;
  }

  abbrev pub as_parts : ℕ → List (EvidenceGroup Float) → List (Finding Float)
  as_parts index [] = []
  as_parts index (group ∷ groups) = as_part index group ∷ as_parts (index + 1) groups

  -- Each part has evidence, belongs to the finding's rule, and has an evidence group of its own.
  abbrev pub are_parts : List String → List (EvidenceGroup Float) → Bool
  are_parts seen [] = true
  are_parts seen (group ∷ groups) =
      not (is_empty group.fragments)
      && (group.rule_code == finding.rule_code
          && (not (elem group.evidence_group_id seen)
              && (not (is_blank group.evidence_group_id)
                  && are_parts (group.evidence_group_id ∷ seen) groups)))

  split_from_lem :
      (index : ℕ) (seen : List String) (groups : List (EvidenceGroup Float))
      → finding.finding_status ≡ candidate
      → returned (split_from finding index seen groups)
        ≡ (if are_parts seen groups then some (as_parts index groups) else none)
  unfolding split_from new_finding
  split_from_lem index seen [] c = refl
  split_from_lem index seen (group ∷ groups) c =
      ground (arith, split_from_lem (index + 1) (group.evidence_group_id ∷ seen) groups c)

  -- A split is accepted exactly for a human, on a CANDIDATE, into two parts or more, each with
  -- evidence, under the same rule and with an evidence group that is named and differs from the other
  -- parts'. It then gives one candidate for each part, numbered from 1, with the part's evidence and
  -- no decision, and otherwise as the finding was.
  pub split_lem :
      (groups : List (EvidenceGroup Float)) (actor : Actor)
      → returned (split finding groups actor) ≡ (
          if actor.is_human
            && (finding.finding_status == candidate
                && (leb 2 (length groups) && are_parts [] groups))
          then some (as_parts 1 groups)
          else none)
  unfolding split
  split_lem groups actor = ground (arith, split_from_lem 1 [] groups)
