-- ===== src/Storage/Evidence.antt =====
-- backend/src/kontur/infrastructure/db/evidence_codec.py: a group of evidence as JSON, and back. The
-- code walks the fields of the entities; here each entity has its two functions. What JSON of another
-- shape than the code writes decodes to, without a check, is an error here.
use kontur.Prelude.{
  ℕ, Bool, false, Option, none, some, String, List, [], ◌∷◌, map, Result, ok, err, ◌>>=◌, traverse,
}
use kontur.Prelude.{or_raise}
use kontur.Prelude.Json.{Json, Fields, nil, cons, end, field, items, values, get}
use kontur.Domain.Models.{Value, text, number, flag, DocumentRef, ApprovalBasis, Extraction}
use kontur.Storage.Values.{
  DecodeError, no_field, malformed, member, stage_value, doc_stages, approval_value, approvals,
  basis_value, bases, engine_value, engines,
}

module _ {Float : Type 0} where
  abbrev pub as_text : Json Float → Result DecodeError String
  as_text (Json.text s) = ok s
  as_text _ = err malformed

  abbrev pub as_bool : Json Float → Result DecodeError Bool
  as_bool (Json.bool b) = ok b
  as_bool _ = err malformed

  abbrev pub as_nat : Json Float → Result DecodeError ℕ
  as_nat (Json.int n) = ok n
  as_nat _ = err malformed

  abbrev pub as_object : Json Float → Result DecodeError (Fields Float)
  as_object (Json.obj d) = ok d
  as_object _ = err malformed

  abbrev pub as_list : Json Float → Result DecodeError (List (Json Float))
  as_list (Json.arr js) = ok (values js)
  as_list _ = err malformed

  -- `A | None`
  abbrev pub or_none :
      {A : Type 0}
      → (Json Float → Result DecodeError A)
      → Json Float
      → Result DecodeError (Option A)
  or_none decode Json.null = ok none
  or_none decode j = decode j >>= λ a. ok (some a)

  abbrev pub null_or : {A : Type 0} → (A → Json Float) → Option A → Json Float
  null_or encode none = Json.null
  null_or encode (some a) = encode a

  -- `raw[name]`, or the default of a field that is not there.
  abbrev pub field_of :
      {A : Type 0}
      → Fields Float
      → String
      → (Json Float → Result DecodeError A)
      → Result DecodeError A
  field_of d name decode = or_raise (get name d) (no_field name) >>= decode

  abbrev of_optional :
      {A : Type 0}
      → Option (Json Float)
      → A
      → (Json Float → Result DecodeError A)
      → Result DecodeError A
  of_optional none default decode = ok default
  of_optional (some j) default decode = decode j

  abbrev pub field_or :
      {A : Type 0}
      → Fields Float
      → String
      → A
      → (Json Float → Result DecodeError A)
      → Result DecodeError A
  field_or d name default decode = of_optional (get name d) default decode

  abbrev pub array : {A : Type 0} → (A → Json Float) → List A → Json Float
  array encode xs = Json.arr (items (map encode xs))

  abbrev pub as_list_of :
      {A : Type 0} → (Json Float → Result DecodeError A) → Json Float → Result DecodeError (List A)
  as_list_of decode j = as_list j >>= traverse decode

-- What the code asks of Python: `isoformat` and `fromisoformat` of a date, and `float` of an integer.
pub record Casts (Float : Type 0) : Type 0 where
  pub date_text : ℕ → String
  pub date_of : String → Option ℕ
  pub float_of : ℕ → Float
  pub float_of_negative : ℕ → Float

module _ {Float : Type 0} (casts : Casts Float) where
  open casts use {date_text, date_of, float_of, float_of_negative}

  unfoldable pub encode_document : DocumentRef → Json Float
  encode_document d = Json.obj (
      field "file_id" (Json.text d.file_id) (
        field "file_hash" (Json.text d.file_hash) (
          field "doc_stage" (Json.text (stage_value d.doc_stage)) (
            field "document_code" (Json.text d.document_code) (
              field "revision" (Json.text d.revision) (
                field "approval_status" (Json.text (approval_value d.approval_status)) (
                  field "approval_basis" (Json.text (basis_value d.approval_basis)) (
                    field "discipline" (null_or Json.text d.discipline) (
                      field "approval_date" (null_or (λ n. Json.text (date_text n)) d.approval_date)
                        (field "sheet" (null_or Json.text d.sheet) (
                          field "predecessor_file_id" (null_or Json.text d.predecessor_file_id) (
                            field "successor_file_id" (null_or Json.text d.successor_file_id) (
                              field "source_name" (Json.text d.source_name)
                                (field "revision_kind" (Json.text d.revision_kind) end))))))))))))))

  abbrev pub as_date : Json Float → Result DecodeError ℕ
  as_date j = as_text j >>= λ s. or_raise (date_of s) malformed

  unfoldable pub decode_document : Json Float → Result DecodeError DocumentRef
  unfolding member
  decode_document j = do
    d ← as_object j
    file_id ← field_of d "file_id" as_text
    file_hash ← field_of d "file_hash" as_text
    doc_stage ← field_of d "doc_stage" (λ v. as_text v >>= member stage_value doc_stages)
    document_code ← field_of d "document_code" as_text
    revision ← field_of d "revision" as_text
    approval_status ←
        field_of d "approval_status" (λ v. as_text v >>= member approval_value approvals)
    approval_basis ←
        field_or d "approval_basis" ApprovalBasis.unproven
          (λ v. as_text v >>= member basis_value bases)
    discipline ← field_or d "discipline" none (or_none as_text)
    approval_date ← field_or d "approval_date" none (or_none as_date)
    sheet ← field_or d "sheet" none (or_none as_text)
    predecessor_file_id ← field_or d "predecessor_file_id" none (or_none as_text)
    successor_file_id ← field_or d "successor_file_id" none (or_none as_text)
    source_name ← field_or d "source_name" "" as_text
    revision_kind ← field_or d "revision_kind" "" as_text
    ok (record {
      file_id = file_id;
      file_hash = file_hash;
      doc_stage = doc_stage;
      document_code = document_code;
      revision = revision;
      approval_status = approval_status;
      approval_basis = approval_basis;
      discipline = discipline;
      approval_date = approval_date;
      sheet = sheet;
      predecessor_file_id = predecessor_file_id;
      successor_file_id = successor_file_id;
      source_name = source_name;
      revision_kind = revision_kind;
    })

  abbrev pub as_float : Json Float → Result DecodeError Float
  as_float (Json.float x) = ok x
  as_float (Json.int n) = ok (float_of n)
  as_float (Json.negative n) = ok (float_of_negative n)
  as_float _ = err malformed

  -- `str | float | bool | None`
  abbrev pub encode_value : Option (Value Float) → Json Float
  encode_value none = Json.null
  encode_value (some (text s)) = Json.text s
  encode_value (some (number x)) = Json.float x
  encode_value (some (flag b)) = Json.bool b

  abbrev pub decode_value : Json Float → Result DecodeError (Option (Value Float))
  decode_value Json.null = ok none
  decode_value (Json.text s) = ok (some (text s))
  decode_value (Json.bool b) = ok (some (flag b))
  decode_value j = as_float j >>= λ x. ok (some (number x))

  abbrev pub encode_point : Float × Float → Json Float
  encode_point (x, y) = Json.arr (cons (Json.float x) (cons (Json.float y) nil))

  abbrev point_of : List (Json Float) → Result DecodeError (Float × Float)
  point_of (x ∷ y ∷ []) = do a ← as_float x; b ← as_float y; ok (a, b)
  point_of _ = err malformed

  abbrev pub decode_point : Json Float → Result DecodeError (Float × Float)
  decode_point j = as_list j >>= point_of

  abbrev pub encode_features : List (String × Float) → Fields Float
  encode_features [] = end
  encode_features ((name, x) ∷ rest) = field name (Json.float x) (encode_features rest)

  abbrev pub decode_features : Fields Float → Result DecodeError (List (String × Float))
  decode_features end = ok []
  decode_features (field name j rest) = do
    x ← as_float j
    others ← decode_features rest
    ok ((name, x) ∷ others)

  unfoldable pub encode_extraction : Extraction Float → Json Float
  encode_extraction e = Json.obj (
      field "raw_token" (Json.text e.raw_token) (
        field "engine" (Json.text (engine_value e.engine)) (
          field "engine_version" (Json.text e.engine_version) (
            field "confidence" (Json.float e.confidence) (
              field "normalized_value" (encode_value e.normalized_value) (
                field "unit" (null_or Json.text e.unit) (
                  field "grounded_in_source_tokens" (Json.bool e.grounded_in_source_tokens) (
                    field "second_read_agrees" (null_or Json.bool e.second_read_agrees) (
                      field "confidence_features" (Json.obj (encode_features e.confidence_features))
                        end)))))))))

  unfoldable pub decode_extraction : Json Float → Result DecodeError (Extraction Float)
  unfolding member
  decode_extraction j = do
    d ← as_object j
    raw_token ← field_of d "raw_token" as_text
    engine ← field_of d "engine" (λ v. as_text v >>= member engine_value engines)
    engine_version ← field_of d "engine_version" as_text
    confidence ← field_of d "confidence" as_float
    normalized_value ← field_or d "normalized_value" none decode_value
    unit ← field_or d "unit" none (or_none as_text)
    grounded_in_source_tokens ← field_or d "grounded_in_source_tokens" false as_bool
    second_read_agrees ← field_or d "second_read_agrees" none (or_none as_bool)
    confidence_features ← field_or d "confidence_features" [] (λ v. as_object v >>= decode_features)
    ok (record {
      raw_token = raw_token;
      engine = engine;
      engine_version = engine_version;
      confidence = confidence;
      normalized_value = normalized_value;
      unit = unit;
      grounded_in_source_tokens = grounded_in_source_tokens;
      second_read_agrees = second_read_agrees;
      confidence_features = confidence_features;
    })
