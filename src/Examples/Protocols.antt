-- ===== src/Examples/Protocols.antt =====
-- Runs of backend/src/kontur/application/protocol.py and its neighbours. Floats are numbers here.
use kontur.Prelude.{ℕ, ◌≡◌, refl, none, some, List, [], ◌∷◌, ◌++◌, ok, err, String_eq}
use kontur.Prelude.Json.{
  Json, Items, Fields, end, field, nil, cons, items, count_items, get, put, pop,
}
use kontur.Prelude.Text.{lacks_text}
use kontur.Domain.Status.{verifying, uploaded, missing, FindingStatus_eq}
use kontur.Domain.StatusMap.{protocol_status, on_the_wire}
use kontur.Domain.Models.{Finding}
use kontur.Scenario.{CompletenessMap, detect_scenario}
use kontur.Protocol.Assembly.{
  Section, Sections, sections_json, Request, place_findings, initial_sections, assemble_protocol,
  section_of,
}
use kontur.Protocol.Sections.{cards, assemble_protocol_lem}
use kontur.Protocol.Wire.{protocol_for_rin, clean_section, clean_rows}
use kontur.Protocol.Selection.{AreSelectedOf}
use kontur.Protocol.Wire.{raw_section}
use kontur.Protocol.Sections.{cards_with}
use kontur.Prelude.{String_eq, ◌==◌, String, if◌then◌else◌}
use kontur.Domain.Status.{confirmed_violation, negative_verified}
use kontur.Protocol.Delivery.{
  two_sections, protocol_for_rin_lem, protocol_for_rin_idempotent, assembled_is_delivered,
}
use kontur.Examples.{one, closed, reviewed}

abbrev stages : CompletenessMap
stages = record { of_pd = some uploaded; of_rd = some uploaded; of_id = some missing }

abbrev request : Request ℕ
request = record {
  protocol_id = "protocol-p1";
  object_id = "o1";
  of_stages = stages;
  files = [];
  versions = end;
  process_state = verifying;
  input_manifest_hash = "";
  version = 1;
  revision_changes = Json.null ∷ [];
  refs = λ rule. [];
  rows = [];
  iso = λ moment. "";
}

abbrev findings : List (Finding ℕ)
findings = one ∷ reviewed ∷ closed ∷ []

-- The protocol that the three findings make.
abbrev assembled : Fields ℕ
assembled = elim (assemble_protocol request findings) [ err _ ↦ end | ok p ↦ p ]

assembled_runs : assemble_protocol request findings ≡ ok assembled
unfolding assemble_protocol place_findings section_of on_the_wire protocol_status detect_scenario
assembled_runs = refl

assemble_protocol_lem_example :
    (sections : Sections ℕ) × ((s : Section)
      → sections s ≡ initial_sections request s ++ cards request s findings)
    × (get "sections" assembled ≡ some (Json.obj (sections_json sections)))
    × (get "violation_count" assembled ≡ some (Json.int 1))
assemble_protocol_lem_example = assemble_protocol_lem request findings assembled_runs

assembled_is_delivered_example :
    (out : Fields ℕ) × (protocol_for_rin assembled ≡ ok out)
    × (get "sections" out
        ≡ some (
            two_sections
              (items (cards_with request confirmed_violation findings))
              (items (cards_with request negative_verified findings))))
    × (get "violation_count" out
        ≡ some (Json.int (count_items (items (cards_with request confirmed_violation findings)))))
assembled_is_delivered_example = assembled_is_delivered request findings assembled_runs

-- A document with a candidate among its confirmed rows.
abbrev payload : Fields ℕ
payload = field "revision_changes" Json.null (
    field "sections"
      (Json.obj (
        field "confirmed"
          (Json.arr (
            cons (Json.obj (field "finding_status" (Json.text "CANDIDATE") end))
              (cons (Json.obj (field "finding_status" (Json.text "CONFIRMED_VIOLATION") end)) nil)))
          end))
      end)

abbrev row : Items ℕ
row = cons (Json.obj (field "finding_status" (Json.text "CONFIRMED_VIOLATION") end)) nil

abbrev sent : Fields ℕ
sent = field "sections" (two_sections row nil) (field "violation_count" (Json.int 1) end)

sent_runs : protocol_for_rin payload ≡ ok sent
unfolding protocol_for_rin clean_section clean_rows get put pop lacks_text
sent_runs = refl

protocol_for_rin_lem_example :
    (violations : Items ℕ) × (negative : Items ℕ) × (get "sections" sent
      ≡ some (two_sections violations negative))
    × AreSelectedOf "CONFIRMED_VIOLATION"
        (raw_section (get "sections" payload) "confirmed")
        violations
    × AreSelectedOf "NEGATIVE_VERIFIED"
        (raw_section (get "sections" payload) "negative_verified")
        negative
    × (get "violation_count" sent ≡ some (Json.int (count_items violations)))
    × (get "revision_changes" sent ≡ none)
    × ((k : String)
        → get k sent ≡ (
            if "violation_count" == k
            then some (Json.int (count_items violations))
            else if "sections" == k
            then some (two_sections violations negative)
            else if "revision_changes" == k
            then none
            else get k payload))
protocol_for_rin_lem_example = protocol_for_rin_lem payload sent_runs

protocol_for_rin_idempotent_example : protocol_for_rin sent ≡ ok sent
protocol_for_rin_idempotent_example = protocol_for_rin_idempotent payload sent_runs
