-- ===== src/Storage/Groups.antt =====
-- backend/src/kontur/infrastructure/db/evidence_codec.py: fragments and groups, whose constructors check
-- what was read.
use kontur.Prelude.{none, [], Result, ◌>>=◌}
use kontur.Prelude.{raised_as}
use kontur.Prelude.Json.{Json, end, field}
use kontur.Prelude.Floats.{Floats}
use kontur.Domain.Models.{EvidenceFragment, EvidenceGroup}
use kontur.Domain.Models.Checks.{new_fragment, new_group}
use kontur.Storage.Values.{DecodeError, refused, member, role_text, roles}
use kontur.Storage.Evidence.{
  Casts, as_text, as_nat, as_object, or_none, null_or, field_of, field_or, array, as_list_of,
  encode_document, decode_document, encode_point, decode_point, encode_extraction,
  decode_extraction,
}

module _ (F : Floats) (casts : Casts (F.Float)) where
  open F use {Float}

  unfoldable pub encode_fragment : EvidenceFragment Float → Json Float
  unfolding encode_document encode_extraction
  encode_fragment f = Json.obj (
      field "fragment_id" (Json.text f.fragment_id) (
        field "role" (Json.text (role_text f.role)) (
          field "document" (encode_document casts f.document) (
            field "page" (Json.int f.page) (
              field "polygon_source" (array (encode_point casts) f.polygon_source) (
                field "polygon_norm" (array (encode_point casts) f.polygon_norm) (
                  field "extracted" (encode_extraction casts f.extracted)
                    (field "room_id" (null_or Json.text f.room_id) end))))))))

  unfoldable pub decode_fragment : Json Float → Result DecodeError (EvidenceFragment Float)
  unfolding decode_document decode_extraction member
  decode_fragment j = do
    d ← as_object j
    fragment_id ← field_of d "fragment_id" as_text
    role ← field_of d "role" (λ v. as_text v >>= member role_text roles)
    document ← field_of d "document" (decode_document casts)
    page ← field_of d "page" as_nat
    polygon_source ← field_of d "polygon_source" (as_list_of (decode_point casts))
    polygon_norm ← field_of d "polygon_norm" (as_list_of (decode_point casts))
    extracted ← field_of d "extracted" (decode_extraction casts)
    room_id ← field_or d "room_id" none (or_none as_text)
    raised_as refused (
        new_fragment F (record {
          fragment_id = fragment_id;
          role = role;
          document = document;
          page = page;
          polygon_source = polygon_source;
          polygon_norm = polygon_norm;
          extracted = extracted;
          room_id = room_id;
        }))

  unfoldable pub encode_group : EvidenceGroup Float → Json Float
  unfolding encode_document encode_fragment
  encode_group g = Json.obj (
      field "evidence_group_id" (Json.text g.evidence_group_id) (
        field "object_id" (Json.text g.object_id) (
          field "rule_code" (Json.text g.rule_code) (
            field "matrix_version" (Json.text g.matrix_version) (
              field "fragments" (array encode_fragment g.fragments) (
                field "resolved_revisions" (array (encode_document casts) g.resolved_revisions) (
                  field "prior_revision_fragments"
                    (array encode_fragment g.prior_revision_fragments) end)))))))

  unfoldable pub decode_group : Json Float → Result DecodeError (EvidenceGroup Float)
  unfolding decode_document decode_fragment
  decode_group j = do
    d ← as_object j
    evidence_group_id ← field_of d "evidence_group_id" as_text
    object_id ← field_of d "object_id" as_text
    rule_code ← field_of d "rule_code" as_text
    matrix_version ← field_of d "matrix_version" as_text
    fragments ← field_of d "fragments" (as_list_of decode_fragment)
    resolved_revisions ← field_or d "resolved_revisions" [] (as_list_of (decode_document casts))
    prior_revision_fragments ← field_or d "prior_revision_fragments" [] (as_list_of decode_fragment)
    raised_as refused (
        new_group (record {
          evidence_group_id = evidence_group_id;
          object_id = object_id;
          rule_code = rule_code;
          matrix_version = matrix_version;
          fragments = fragments;
          resolved_revisions = resolved_revisions;
          prior_revision_fragments = prior_revision_fragments;
        }))
