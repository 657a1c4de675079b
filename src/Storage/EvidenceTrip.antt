-- ===== src/Storage/EvidenceTrip.antt =====
-- A document and an extracted value that were stored come back as they were.
use kontur.Prelude.{
  ℕ, ◌≡◌, refl, ap, ◌∙◌, Bool, Result, Option, none, some, String, List, [], ◌∷◌, map, ok, traverse,
  All,
}
use kontur.Prelude.Json.{Json, items, values, get}
use kontur.Domain.Models.{Value, text, number, flag, DocumentRef, Extraction}
use kontur.Storage.Values.{DecodeError, member-stage, member-approval, member-basis, member-engine}
use kontur.Storage.Evidence.{
  Casts, as_text, as_bool, or_none, null_or, as_date, as_list_of, array, encode_document,
  decode_document, encode_value, decode_value, encode_point, decode_point, encode_features,
  decode_features, encode_extraction, decode_extraction,
}

module _ (Float : Type 0) where
  pub or_none-text :
      (o : Option String) → or_none as_text (null_or {Float = Float} Json.text o) ≡ ok o
  or_none-text none = refl
  or_none-text (some s) = refl

  or_none-bool : (o : Option Bool) → or_none as_bool (null_or {Float = Float} Json.bool o) ≡ ok o
  or_none-bool none = refl
  or_none-bool (some b) = refl

  values-items : (js : List (Json Float)) → values (items js) ≡ js
  values-items [] = refl
  values-items (j ∷ js) = ap (λ ks. j ∷ ks) (values-items js)

  traverse-map :
      {A : Type 0} (encode : A → Json Float) (decode : Json Float → Result DecodeError A)
      (xs : List A)
      → All (λ x. decode (encode x) ≡ ok x) xs
      → traverse decode (map encode xs) ≡ ok xs
  unfolding traverse
  traverse-map encode decode [] each = refl
  traverse-map encode decode (x ∷ xs) each = rw (each.0, traverse-map encode decode xs each.1) refl

  -- A list whose items come back comes back.
  pub as_list_of-array :
      {A : Type 0} (encode : A → Json Float) (decode : Json Float → Result DecodeError A)
      (xs : List A)
      → All (λ x. decode (encode x) ≡ ok x) xs
      → as_list_of decode (array encode xs) ≡ ok xs
  as_list_of-array encode decode xs each =
      ap (traverse decode) (values-items (map encode xs)) ∙ traverse-map encode decode xs each

module _ (Float : Type 0) (casts : Casts Float)
    (date_of-text : (n : ℕ) → casts.date_of (casts.date_text n) ≡ some n) where
  or_none-date :
      (o : Option ℕ)
      → or_none (as_date casts) (null_or {Float = Float} (λ n. Json.text (casts.date_text n)) o)
        ≡ ok o
  or_none-date none = refl
  or_none-date (some n) = rw (date_of-text n) refl

  pub decode_document-encode :
      (d : DocumentRef) → decode_document casts (encode_document casts d) ≡ ok d
  unfolding decode_document encode_document get
  decode_document-encode d =
      rw
        (
          member-stage d.doc_stage,
          member-approval d.approval_status,
          member-basis d.approval_basis,
          or_none-text Float d.discipline,
          or_none-date d.approval_date,
          or_none-text Float d.sheet,
          or_none-text Float d.predecessor_file_id,
          or_none-text Float d.successor_file_id,
        )
        refl

module _ (Float : Type 0) (casts : Casts Float) where
  decode_value-encode :
      (v : Option (Value Float)) → decode_value casts (encode_value casts v) ≡ ok v
  decode_value-encode none = refl
  decode_value-encode (some (text s)) = refl
  decode_value-encode (some (number x)) = refl
  decode_value-encode (some (flag b)) = refl

  pub decode_point-encode :
      (points : List (Float × Float))
      → All (λ p. decode_point casts (encode_point casts p) ≡ ok p) points
  decode_point-encode [] = tt
  decode_point-encode ((x, y) ∷ points) = (refl, decode_point-encode points)

  decode_features-encode :
      (features : List (String × Float))
      → decode_features casts (encode_features casts features) ≡ ok features
  decode_features-encode [] = refl
  decode_features-encode ((name, x) ∷ rest) = rw (decode_features-encode rest) refl

  pub decode_extraction-encode :
      (e : Extraction Float) → decode_extraction casts (encode_extraction casts e) ≡ ok e
  unfolding decode_extraction encode_extraction get
  decode_extraction-encode e =
      rw
        (
          member-engine e.engine,
          decode_value-encode e.normalized_value,
          or_none-text Float e.unit,
          or_none-bool Float e.second_read_agrees,
          decode_features-encode e.confidence_features,
        )
        refl
