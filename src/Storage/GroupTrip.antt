-- ===== src/Storage/GroupTrip.antt =====
-- A group of evidence that was stored comes back as it was.
use kontur.Prelude.{ℕ, ◌≡◌, ap, some, List, ok, All, All-imp, All-of_members}
use kontur.Prelude.{raised_as}
use kontur.Prelude.Json.{get}
use kontur.Prelude.Floats.{Floats}
use kontur.Domain.Models.{EvidenceFragment, EvidenceGroup}
use kontur.Domain.Models.Checks.{new_fragment, new_group}
use kontur.Storage.Values.{member-role}
use kontur.Storage.Evidence.{Casts, encode_document, decode_document, encode_point, decode_point}
use kontur.Storage.Groups.{encode_fragment, decode_fragment, encode_group, decode_group}
use kontur.Storage.EvidenceTrip.{
  or_none-text, as_list_of-array, decode_document-encode, decode_point-encode,
  decode_extraction-encode,
}

module _ (F : Floats) (casts : Casts (F.Float))
    (date_of-text : (n : ℕ) → casts.date_of (casts.date_text n) ≡ some n) where
  open F use {Float}

  decode_fragment-encode :
      (f : EvidenceFragment Float)
      → new_fragment F f ≡ ok f
      → decode_fragment F casts (encode_fragment F casts f) ≡ ok f
  unfolding decode_fragment encode_fragment get
  decode_fragment-encode f valid =
      rw
        (
          member-role f.role,
          decode_document-encode Float casts date_of-text f.document,
          as_list_of-array Float (encode_point casts) (decode_point casts) f.polygon_source
              (decode_point-encode Float casts f.polygon_source),
          as_list_of-array Float (encode_point casts) (decode_point casts) f.polygon_norm
              (decode_point-encode Float casts f.polygon_norm),
          decode_extraction-encode Float casts f.extracted,
          or_none-text Float f.room_id,
        )
        (ap (raised_as _) valid)

  fragments-encode :
      (fs : List (EvidenceFragment Float))
      → All (λ f. new_fragment F f ≡ ok f) fs
      → All (λ f. decode_fragment F casts (encode_fragment F casts f) ≡ ok f) fs
  fragments-encode fs = All-imp _ (λ f valid. decode_fragment-encode f valid) fs

  -- Encoding a group of evidence and decoding what comes of it gives the group, if its constructor and
  -- those of its fragments accept it and reading the text of a date gives the date.
  pub decode_group-encode :
      (g : EvidenceGroup Float)
      → new_group g ≡ ok g
      → All (λ f. new_fragment F f ≡ ok f) g.fragments
      → All (λ f. new_fragment F f ≡ ok f) g.prior_revision_fragments
      → decode_group F casts (encode_group F casts g) ≡ ok g
  unfolding decode_group encode_group get
  decode_group-encode g valid valid_fragments valid_prior =
      rw
        (
          as_list_of-array Float (encode_fragment F casts) (decode_fragment F casts) g.fragments
              (fragments-encode g.fragments valid_fragments),
          as_list_of-array Float (encode_document casts) (decode_document casts)
              g.resolved_revisions
              (All-of_members _ g.resolved_revisions
                (λ d m. decode_document-encode Float casts date_of-text d)),
          as_list_of-array Float (encode_fragment F casts) (decode_fragment F casts)
              g.prior_revision_fragments (fragments-encode g.prior_revision_fragments valid_prior),
        )
        (ap (raised_as _) valid)
