-- ===== src/Protocol/Sections.antt =====
-- Where the findings go in a protocol.
use kontur.Prelude.{
  ◌≡◌, refl, sym, false, ◌&&◌, some, is_some, List, [], ◌∷◌, ◌++◌, length, map, select, ok, is_ok,
  ◌==◌, nat_eq, if◌then◌else◌, arith,
}
use mathlib.Core.List.{append-nil, append_assoc}
use kontur.Scenario.{detect_scenario}
use kontur.Prelude.Json.{Json, Fields, get, put}
use kontur.Domain.Status.{
  FindingStatus, FindingStatus_eq, auto_no_difference, confirmed_violation, negative_verified,
}
use kontur.Domain.StatusMap.{on_the_wire, protocol_status}
use kontur.Domain.Models.{Finding}
use kontur.Protocol.Assembly.{
  Section, section_number, section_of, Sections, append_to, Request, card, place_findings,
  initial_sections, assemble_protocol, confirmed, negatives, sections_json,
}

module _ {Float : Type 0} (r : Request Float) where
  -- The cards of the findings that belong to a section, in the order of the findings.
  abbrev pub cards : Section → List (Finding Float) → List (Json Float)
  cards s [] = []
  cards s (f ∷ fs) =
      let rest = cards s fs in
      if nat_eq (section_number s) (section_number (section_of f.finding_status))
      then card r f ∷ rest
      else rest

  -- The guard of the loop never fires.
  auto_is_internal :
      (status : FindingStatus) → (status == auto_no_difference && on_the_wire status) ≡ false
  unfolding on_the_wire
  auto_is_internal status = ground arith

  -- Every finding is placed, each in the section of its status and in no other; the loop never raises.
  place_findings_lem :
      (fs : List (Finding Float)) (before : Sections Float)
      → (after : Sections Float) × (place_findings r fs before ≡ ok after)
        × ((s : Section) → after s ≡ before s ++ cards s fs)
  unfolding place_findings
  place_findings_lem [] before = (before, refl, λ s. sym (append-nil (before s)))
  place_findings_lem (f ∷ fs) before =
      let (after, e, each) =
        place_findings_lem fs (append_to (section_of f.finding_status) (card r f) before) in
      (
        after,
        rw (auto_is_internal f.finding_status) e,
        λ s. ground (arith, each s, append_assoc (before s) (card r f ∷ []) (cards s fs)),
      )

  cards_confirmed :
      (fs : List (Finding Float))
      → length (cards confirmed fs)
        ≡ length (select (λ f. f.finding_status == confirmed_violation) fs)
  unfolding section_of
  cards_confirmed [] = refl
  cards_confirmed (f ∷ fs) = ground (arith, cards_confirmed fs)

  -- The cards of the findings with a status, in the order of the findings.
  abbrev pub cards_with : FindingStatus → List (Finding Float) → List (Json Float)
  cards_with status fs = map (card r) (select (λ f. f.finding_status == status) fs)

  -- The two sections of verdicts hold the findings with one status each.
  pub cards-confirmed :
      (fs : List (Finding Float)) → cards confirmed fs ≡ cards_with confirmed_violation fs
  unfolding section_of
  cards-confirmed [] = refl
  cards-confirmed (f ∷ fs) = ground (arith, cards-confirmed fs)

  pub cards-negatives :
      (fs : List (Finding Float)) → cards negatives fs ≡ cards_with negative_verified fs
  unfolding section_of
  cards-negatives [] = refl
  cards-negatives (f ∷ fs) = ground (arith, cards-negatives fs)

  -- A protocol is assembled exactly when the process is past parsing, some stage has a file, and the
  -- completeness names all three stages.
  pub assemble_protocol_ok_iff :
      (fs : List (Finding Float))
      → is_ok (assemble_protocol r fs) ≡ (
          is_some (protocol_status r.process_state)
          && (is_ok (detect_scenario r.of_stages false)
              && (is_some r.of_stages.of_pd
                  && (is_some r.of_stages.of_rd && is_some r.of_stages.of_id))))
  unfolding assemble_protocol
  assemble_protocol_ok_iff fs =
      let (after, e, each) = place_findings_lem fs (initial_sections r) in ground (arith, e)

  -- In an assembled protocol each section holds the cards of the findings with its statuses, in order
  -- and each once (the completeness rows come first in theirs), and the number of violations is the
  -- number of confirmed findings.
  pub assemble_protocol_lem :
      (fs : List (Finding Float)) {p : Fields Float}
      → assemble_protocol r fs ≡ ok p
      → (sections : Sections Float) × ((s : Section)
          → sections s ≡ initial_sections r s ++ cards s fs)
        × (get "sections" p ≡ some (Json.obj (sections_json sections)))
        × (get "violation_count" p
            ≡ some (Json.int (length (select (λ f. f.finding_status == confirmed_violation) fs))))
  unfolding assemble_protocol get put
  assemble_protocol_lem fs {p} h =
      let (after, e, each) = place_findings_lem fs (initial_sections r) in
      (after, each, ground (arith, e), ground (arith, e, each confirmed, cards_confirmed fs))
