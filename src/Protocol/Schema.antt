-- ===== src/Protocol/Schema.antt =====
-- `finding_to_schema` of protocol.py: one finding as a card. `iso` writes a moment as text.
use kontur.Prelude.{ℕ, Option, none, some, String, List, [], ◌∷◌}
use kontur.Prelude.Json.{Json, Fields, end, field, items, put}
use kontur.Domain.Status.{finding_value, priority_value, kind_value, reason_value}
use kontur.Domain.Models.{Value, text, number, flag, InspectorDecision, Finding}
use kontur.Domain.Models.Checks.{counts_as_violation}

module _ {Float : Type 0} where
  -- `if v is not None: payload[k] = v`
  unfoldable pub put_some : String → Option (Json Float) → Fields Float → Fields Float
  put_some k none d = d
  put_some k (some v) d = put k v d

  abbrev pub text_of : Option String → Option (Json Float)
  text_of none = none
  text_of (some s) = some (Json.text s)

  abbrev pub value_of : Option (Value Float) → Option (Json Float)
  value_of none = none
  value_of (some (text s)) = some (Json.text s)
  value_of (some (number x)) = some (Json.float x)
  value_of (some (flag b)) = some (Json.bool b)

  abbrev texts : List String → List (Json Float)
  texts [] = []
  texts (s ∷ ss) = Json.text s ∷ texts ss

  abbrev objects : List (Fields Float) → List (Json Float)
  objects [] = []
  objects (d ∷ ds) = Json.obj d ∷ objects ds

  abbrev pub list_of : List (Json Float) → Option (Json Float)
  list_of [] = none
  list_of (x ∷ xs) = some (Json.arr (items (x ∷ xs)))

  abbrev nullable : Option String → Json Float
  nullable none = Json.null
  nullable (some s) = Json.text s

  abbrev decision_of : (ℕ → String) → Option InspectorDecision → Option (Json Float)
  decision_of iso none = none
  decision_of iso (some d) = some (
      Json.obj (
        put_some "reason_code"
          (text_of (elim d.reason_code [ none ↦ none | some r ↦ some (reason_value r) ]))
          (field "inspector_id" (Json.text d.inspector_id) (
            field "action" (Json.text d.action) (
              field "timestamp" (Json.text (iso d.timestamp))
                (field "comment" (nullable d.comment) end))))))

  abbrev kind_of : Finding Float → Option (Json Float)
  kind_of f = elim f.disagreement_kind [ none ↦ none | some k ↦ some (Json.text (kind_value k)) ]

  unfoldable pub finding_to_schema :
      (ℕ → String) → Finding Float → List (Fields Float) → Fields Float
  unfolding counts_as_violation
  finding_to_schema iso f refs =
      put_some "inspector_decision" (decision_of iso f.inspector_decision) (
        put_some "disagreement_kind" (kind_of f) (
          put_some "evidence_refs" (list_of (texts f.evidence_refs)) (
            put_some "source_id" (text_of f.source_id) (
              put_some "llm_draft" (text_of f.llm_draft) (
                put_some "delta" (value_of f.delta) (
                  put_some "actual_value" (value_of f.actual_value) (
                    put_some "expected_value" (value_of f.expected_value) (
                      put_some "normative_refs" (list_of (objects refs)) (
                        put_some "evidence_group_id" (text_of f.evidence_group_id) (
                          field "finding_id" (Json.text f.finding_id) (
                            field "rule_code" (Json.text f.rule_code) (
                              field "finding_status" (Json.text (finding_value f.finding_status)) (
                                field "review_priority"
                                  (Json.text (priority_value f.review_priority))
                                  (field "counts_as_violation" (Json.bool (counts_as_violation f)) (
                                    field "rationale" (Json.text f.rationale)
                                      (field "versions" (Json.obj (versions f)) end))))))))))))))))
    where
      versions : Finding Float → Fields Float
      versions f = field "matrix_version" (Json.text f.matrix_version) (
          field "rule_version" (Json.text f.rule_version)
            (field "model_version" (Json.text f.model_version) end))
