-- ===== src/Storage/FindingTrip.antt =====
-- A finding that was written as a row is read back as it was.
use kontur.Prelude.{
  not, ◌&&◌, nat_eq, inl, inr, Bool-cases, arith, ℕ, ◌≡◌, refl, ap, Bool, true, false, Option, none,
  some, String, List, [], ◌∷◌, map, ok,
}
use kontur.Prelude.{raised_as}
use Prim.Native.Char.{code}
use kontur.Prelude.Text.{is_blank}
use kontur.Prelude.Json.{Json, Items, Fields, end, field, nil, cons, items, get}
use kontur.Domain.Status.{ReasonCode, DisagreementKind, reason_value, kind_value}
use kontur.Domain.Models.{Value, text, number, flag, InspectorDecision, Finding}
use kontur.Domain.Models.Checks.{new_finding}
use kontur.Storage.Values.{
  kinds, reasons, member-status, member-priority, member-reason, member-kind,
}
use kontur.Storage.FindingRow.{
  mapped, chained, text_json, value_json, optional_text, refs_of, scalar_of, without_flag,
  member_or_none, decision_from, extra_of, finding_to_params, finding_from_row,
}

-- The delta is no Boolean.
abbrev pub has_no_flag : {Float : Type 0} → Option (Value Float) → Bool
has_no_flag (some (flag _)) = false
has_no_flag _ = true

-- A decision names its inspector.
abbrev pub is_signed : Option InspectorDecision → Bool
is_signed none = true
is_signed (some d) = not (is_blank d.inspector_id)

module _ {Float : Type 0} where
  delta-json : (v : Option (Value Float)) → has_no_flag v ≡ true → without_flag v ≡ v
  delta-json none h = refl
  delta-json (some (text s)) h = refl
  delta-json (some (number x)) h = refl
  delta-json (some (flag b)) h = cc

kind-json :
    (k : Option DisagreementKind) → member_or_none kind_value kinds (mapped kind_value k) ≡ ok k
kind-json none = refl
kind-json (some k) = rw (member-kind k) refl

reason-json :
    (r : Option ReasonCode) → member_or_none reason_value reasons (mapped reason_value r) ≡ ok r
reason-json none = refl
reason-json (some r) = rw (member-reason r) refl

decision-row :
    (now : ℕ) (d : Option InspectorDecision)
    → is_signed d ≡ true
    → decision_from now
        (mapped (λ e. e.action) d)
        (chained d (λ e. mapped reason_value e.reason_code))
        (chained d (λ e. e.comment))
        (mapped (λ e. e.timestamp) d)
        (mapped (λ e. e.inspector_id) d)
      ≡ ok d
decision-row now none h = refl
decision-row now (some d) h = elim (Bool-cases (is_blank d.inspector_id)) [
  | inl e ↦ absurd (ground (arith, h, e))
  | inr e ↦ rw (e, reason-json d.reason_code) refl
]

module _ {Float : Type 0} (str_json : Json Float → String) where
  optional_text-json : (o : Option String) → optional_text str_json (some (text_json o)) ≡ o
  optional_text-json none = refl
  optional_text-json (some s) = refl

  scalar_of-json :
      (v : Option (Value Float)) (cell : Option String)
      → scalar_of str_json (some (value_json v)) cell ≡ v
  scalar_of-json none cell = refl
  scalar_of-json (some (text s)) cell = refl
  scalar_of-json (some (number x)) cell = refl
  scalar_of-json (some (flag b)) cell = refl

  refs-json :
      (refs : List String) → refs_of str_json (some (Json.arr (items (map Json.text refs)))) ≡ refs
  refs-json [] = refl
  refs-json (r ∷ rs) = ap (λ qs. r ∷ qs) (refs-json rs)

-- A text without the character of code 0.
abbrev is_storable : String → Bool
is_storable String.[] = true
is_storable (String.◌∷◌ c s) = not (nat_eq (code c) 0) && is_storable s

-- JSON that a column of JSON gives back as it was written: its texts are storable, and its numbers are
-- `plain`: finite, and written without an exponent. A number with an exponent is read back as an integer.
unfoldable mutual
  pub is_plain : {Float : Type 0} → (Float → Bool) → Json Float → Bool
  is_plain plain (Json.text s) = is_storable s
  is_plain plain (Json.float x) = plain x
  is_plain plain (Json.arr js) = are_plain plain js
  is_plain plain (Json.obj d) = has_plain_fields plain d
  is_plain plain _ = true

  pub are_plain : {Float : Type 0} → (Float → Bool) → Items Float → Bool
  are_plain plain nil = true
  are_plain plain (cons j js) = is_plain plain j && are_plain plain js

  pub has_plain_fields : {Float : Type 0} → (Float → Bool) → Fields Float → Bool
  has_plain_fields plain end = true
  has_plain_fields plain (field name j d) = is_plain plain j && has_plain_fields plain d

-- Writing a finding as a row and reading the row gives the finding, if its constructor accepts it, its
-- delta is no Boolean, its decision names the inspector, what it keeps in the JSON column is plain, and
-- the database gives back every field of a JSON object that is plain.
pub finding_from_row-params :
    {Float : Type 0} (plain : Float → Bool) (jsonb : Fields Float → Fields Float)
    (str_value : Value Float → String) (str_json : Json Float → String)
    → ((name : String) (d : Fields Float)
        → has_plain_fields plain d ≡ true
        → get name (jsonb d) ≡ get name d)
    → (now : ℕ) (process_id : String) (f : Finding Float) → new_finding f ≡ ok f
    → has_no_flag f.delta ≡ true
    → is_signed f.inspector_decision ≡ true
    → has_plain_fields plain (extra_of f) ≡ true
    → finding_from_row str_json now (finding_to_params jsonb str_value process_id f) ≡ ok f
unfolding finding_from_row finding_to_params get
finding_from_row-params plain jsonb str_value str_json keeps now process_id f valid no_flag signed
      safe =
    let kept = λ (name : String). keeps name (extra_of f) safe in
    rw
      (
        kept "disagreement_kind",
        kept "expected_value",
        kept "actual_value",
        kept "delta",
        kept "llm_draft",
        kept "source_id",
        kept "evidence_refs",
        decision-row now f.inspector_decision signed,
        member-status f.finding_status,
        member-priority f.review_priority,
        optional_text-json str_json (mapped kind_value f.disagreement_kind),
        kind-json f.disagreement_kind,
        scalar_of-json str_json f.expected_value,
        scalar_of-json str_json f.actual_value,
        scalar_of-json str_json f.delta,
        delta-json f.delta no_flag,
        optional_text-json str_json f.llm_draft,
        optional_text-json str_json f.source_id,
        refs-json str_json f.evidence_refs,
      )
      (ap (raised_as _) valid)
