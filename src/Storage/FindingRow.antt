-- ===== src/Storage/FindingRow.antt =====
-- `finding_to_params` and `finding_from_row` of backend/src/kontur/infrastructure/db/process_store.py: a
-- finding as a row of `process_findings`, and back.
use kontur.Prelude.{
  ℕ, Bool, true, false, Option, none, some, String, List, [], map, Result, ok, ◌>>=◌, if◌then◌else◌,
}
use kontur.Prelude.{raised_as}
use kontur.Prelude.Text.{is_blank}
use kontur.Prelude.Json.{Json, Fields, end, field, items, values, get}
use kontur.Domain.Status.{finding_value, priority_value, reason_value, kind_value}
use kontur.Domain.Models.{Value, text, number, flag, InspectorDecision, Finding}
use kontur.Domain.Models.Checks.{new_finding}
use kontur.Storage.Values.{DecodeError, refused, member, statuses, priorities, reasons, kinds}
use kontur.Store.{finding_key}

-- The columns; `payload` is what the JSON column is read as.
pub record FindingRow (Float : Type 0) : Type 0 where
  pub process_id : String
  pub store_key : String
  pub finding_id : String
  pub evidence_group_id : Option String
  pub rule_code : String
  pub finding_status : String
  pub review_priority : String
  pub matrix_version : String
  pub rule_version : String
  pub model_version : String
  pub expected_value : Option String
  pub actual_value : Option String
  pub delta : Option String
  pub rationale : Option String
  pub inspector_id : Option String
  pub inspector_action : Option String
  pub reason_code : Option String
  pub comment : Option String
  pub decided_at : Option ℕ
  pub payload : Fields Float

abbrev pub mapped : {A B : Type 0} → (A → B) → Option A → Option B
mapped f none = none
mapped f (some a) = some (f a)

abbrev pub chained : {A B : Type 0} → Option A → (A → Option B) → Option B
chained none f = none
chained (some a) f = f a

-- `bool` in words
abbrev bool_text : Bool → String
bool_text true = "True"
bool_text false = "False"

abbrev or_else : {A : Type 0} → Option A → A → A
or_else none a = a
or_else (some b) a = b

abbrev pub member_or_none :
    {A : Type 0} → (A → String) → List A → Option String → Result DecodeError (Option A)
member_or_none value members none = ok none
member_or_none value members (some s) = member value members s >>= λ a. ok (some a)

abbrev decided_by :
    ℕ
    → Option String
    → Option String
    → Option String
    → Option ℕ
    → String
    → Result DecodeError (Option InspectorDecision)
decided_by now action reason comment decided_at inspector_id =
    if is_blank inspector_id
    then ok none
    else member_or_none reason_value reasons reason >>= λ reason_code. ok (
        some (record {
          inspector_id = inspector_id;
          action = or_else action "";
          timestamp = or_else decided_at now;
          reason_code = reason_code;
          comment = comment;
        }))

abbrev pub decision_from :
    ℕ
    → Option String
    → Option String
    → Option String
    → Option ℕ
    → Option String
    → Result DecodeError (Option InspectorDecision)
decision_from now action reason comment decided_at none = ok none
decision_from now action reason comment decided_at (some inspector_id) =
    decided_by now action reason comment decided_at inspector_id

module _ {Float : Type 0} where
  abbrev pub text_json : Option String → Json Float
  text_json none = Json.null
  text_json (some s) = Json.text s

  abbrev pub value_json : Option (Value Float) → Json Float
  value_json none = Json.null
  value_json (some (text s)) = Json.text s
  value_json (some (number x)) = Json.float x
  value_json (some (flag b)) = Json.bool b

  abbrev pub without_flag : Option (Value Float) → Option (Value Float)
  without_flag (some (flag b)) = some (text (bool_text b))
  without_flag v = v

  -- The dictionary of the JSON column.
  abbrev pub extra_of : Finding Float → Fields Float
  extra_of f = field "source_id" (text_json f.source_id) (
      field "evidence_refs" (Json.arr (items (map Json.text f.evidence_refs))) (
        field "disagreement_kind" (text_json (mapped kind_value f.disagreement_kind)) (
          field "llm_draft" (text_json f.llm_draft) (
            field "expected_value" (value_json f.expected_value) (
              field "actual_value" (value_json f.actual_value)
                (field "delta" (value_json f.delta) end))))))

-- `jsonb` is what is read of the JSON text of a dictionary; `str_value`, and `str_json` below, are
-- `str`.
module _ {Float : Type 0} (jsonb : Fields Float → Fields Float)
    (str_value : Value Float → String) where
  unfoldable pub finding_to_params : String → Finding Float → FindingRow Float
  finding_to_params process_id f =
      let decision = f.inspector_decision in
      record {
        process_id = process_id;
        store_key = finding_key f;
        finding_id = f.finding_id;
        evidence_group_id = f.evidence_group_id;
        rule_code = f.rule_code;
        finding_status = finding_value f.finding_status;
        review_priority = priority_value f.review_priority;
        matrix_version = f.matrix_version;
        rule_version = f.rule_version;
        model_version = f.model_version;
        expected_value = mapped str_value f.expected_value;
        actual_value = mapped str_value f.actual_value;
        delta = mapped str_value f.delta;
        rationale = some f.rationale;
        inspector_id = mapped (λ d. d.inspector_id) decision;
        inspector_action = mapped (λ d. d.action) decision;
        reason_code = chained decision (λ d. mapped reason_value d.reason_code);
        comment = chained decision (λ d. d.comment);
        decided_at = mapped (λ d. d.timestamp) decision;
        payload = jsonb (extra_of f);
      }

module _ {Float : Type 0} (str_json : Json Float → String) where
  abbrev scalar_text : Json Float → String
  scalar_text (Json.text s) = s
  scalar_text j = str_json j

  -- `None if raw is None else str(raw)` of a field that may be missing
  abbrev pub optional_text : Option (Json Float) → Option String
  optional_text none = none
  optional_text (some Json.null) = none
  optional_text (some j) = some (scalar_text j)

  abbrev pub refs_of : Option (Json Float) → List String
  refs_of (some (Json.arr js)) = map scalar_text (values js)
  refs_of _ = []

  abbrev as_scalar : Json Float → Option (Value Float)
  as_scalar Json.null = none
  as_scalar (Json.text s) = some (text s)
  as_scalar (Json.float x) = some (number x)
  as_scalar (Json.bool b) = some (flag b)
  as_scalar j = some (text (str_json j))

  -- `_as_scalar(extra.get(name, cell))`
  abbrev pub scalar_of : Option (Json Float) → Option String → Option (Value Float)
  scalar_of none cell = mapped text cell
  scalar_of (some j) cell = as_scalar j

  unfoldable pub finding_from_row : ℕ → FindingRow Float → Result DecodeError (Finding Float)
  unfolding member
  finding_from_row now row = do
    decision ←
        decision_from now row.inspector_action row.reason_code row.comment row.decided_at
          row.inspector_id
    finding_status ← member finding_value statuses row.finding_status
    review_priority ← member priority_value priorities row.review_priority
    disagreement_kind ←
        member_or_none kind_value kinds (optional_text (get "disagreement_kind" row.payload))
    raised_as refused (
        new_finding (record {
          finding_id = row.finding_id;
          rule_code = row.rule_code;
          finding_status = finding_status;
          review_priority = review_priority;
          matrix_version = row.matrix_version;
          rule_version = row.rule_version;
          model_version = row.model_version;
          evidence_group_id = row.evidence_group_id;
          expected_value = scalar_of (get "expected_value" row.payload) row.expected_value;
          actual_value = scalar_of (get "actual_value" row.payload) row.actual_value;
          delta = without_flag (scalar_of (get "delta" row.payload) row.delta);
          rationale = or_else row.rationale "";
          llm_draft = optional_text (get "llm_draft" row.payload);
          inspector_decision = decision;
          source_id = optional_text (get "source_id" row.payload);
          evidence_refs = refs_of (get "evidence_refs" row.payload);
          disagreement_kind = disagreement_kind;
        }))
