-- ===== src/Protocol/Delivery.antt =====
-- What reaches the outside system: the two verdicts of the inspector and nothing else.
use kontur.Prelude.{
  ℕ, ◌≡◌, refl, sym, ap, ◌∙◌, if◌then◌else◌, false, Option, none, some, String, List, [], ◌∷◌, ok,
  >>=-eq-ok, ◌==◌, arith,
}
use kontur.Prelude.{String_eq, ℕ_eq}
use mathlib.Core.Path.{subst}
use kontur.Prelude.Json.{
  Json, Items, Fields, end, field, items, count_items, get, put, pop, get-put, get-pop_ne,
  get-pop_self, get-pop, pop_of_absent, put_of_present,
}
use kontur.Domain.Status.{
  FindingStatus, FindingStatus_eq, finding_value, candidate, confirmed_violation, negative_verified,
  auto_no_difference, missing_evidence, not_applicable, not_comparable, low_quality, abstain,
  clarification_required, suspicion,
}
use kontur.Domain.Models.{Finding}
use kontur.Prelude.Text.{lacks_text}
use kontur.Protocol.Schema.{finding_to_schema, put_some}
use kontur.Protocol.Assembly.{
  confirmed, negatives, section_number, section_of, sections_json, Request, assemble_protocol,
}
use kontur.Protocol.Sections.{
  cards, cards_with, cards-confirmed, cards-negatives, assemble_protocol_lem,
}
use kontur.Protocol.Selection.{
  HaveStatus, AreSelectedOf, AreSelectedOf-HaveStatus, clean_section-AreSelectedOf,
  clean_section_of_HaveStatus,
}
use kontur.Protocol.Wire.{clean_section, raw_section, protocol_for_rin}

value_lem :
    (s : FindingStatus)
    → (lacks_text (finding_value s) ≡ false)
      × ((finding_value s == "CONFIRMED_VIOLATION") ≡ (section_number (section_of s) == 2))
      × ((finding_value s == "NEGATIVE_VERIFIED") ≡ (section_number (section_of s) == 3))
unfolding section_of lacks_text
value_lem candidate = (refl, refl, refl)
value_lem confirmed_violation = (refl, refl, refl)
value_lem negative_verified = (refl, refl, refl)
value_lem auto_no_difference = (refl, refl, refl)
value_lem missing_evidence = (refl, refl, refl)
value_lem not_applicable = (refl, refl, refl)
value_lem not_comparable = (refl, refl, refl)
value_lem low_quality = (refl, refl, refl)
value_lem abstain = (refl, refl, refl)
value_lem clarification_required = (refl, refl, refl)
value_lem suspicion = (refl, refl, refl)

module _ {Float : Type 0} where
  -- The two sections that leave the service.
  abbrev pub two_sections : Items Float → Items Float → Json Float
  two_sections violations negative =
      Json.obj (
        field "confirmed" (Json.arr violations) (field "negative_verified" (Json.arr negative) end))

  -- Setting another key, or nothing, leaves a value that is there.
  kept :
      (k : String) (w : Option (Json Float)) (d : Fields Float) {v : Json Float}
      → get "finding_status" d ≡ some v
      → (k == "finding_status") ≡ false
      → get "finding_status" (put_some k w d) ≡ some v
  unfolding put_some
  kept k none d h differs = h
  kept k (some w) d h differs = ground (arith, get-put k "finding_status" w d)

  third_field :
      (a b v : Json Float) (d : Fields Float)
      → get "finding_status"
          (field "finding_id" a (field "rule_code" b (field "finding_status" v d)))
        ≡ some v
  unfolding get
  third_field a b v d = refl

  get-finding_to_schema :
      (iso : ℕ → String) (f : Finding Float) (refs : List (Fields Float))
      → get "finding_status" (finding_to_schema iso f refs)
        ≡ some (Json.text (finding_value f.finding_status))
  unfolding finding_to_schema
  get-finding_to_schema iso f refs =
      kept _ _ _
        (kept _ _ _
          (kept _ _ _
            (kept _ _ _
              (kept _ _ _
                (kept _ _ _
                  (kept _ _ _
                    (kept _ _ _ (kept _ _ _ (kept _ _ _ (third_field _ _ _ _) refl) refl) refl)
                    refl)
                  refl)
                refl)
              refl)
            refl)
          refl)
        refl

  module _ (r : Request Float) where
    confirmed_rows :
        (fs : List (Finding Float))
        → HaveStatus "CONFIRMED_VIOLATION" (items (cards r confirmed fs))
    unfolding section_of
    confirmed_rows [] = ground arith
    confirmed_rows (f ∷ fs) = ground (
      arith,
      confirmed_rows fs,
      get-finding_to_schema r.iso f (r.refs f.rule_code),
      value_lem f.finding_status,
    )

    negative_rows :
        (fs : List (Finding Float)) → HaveStatus "NEGATIVE_VERIFIED" (items (cards r negatives fs))
    unfolding section_of
    negative_rows [] = ground arith
    negative_rows (f ∷ fs) = ground (
      arith,
      negative_rows fs,
      get-finding_to_schema r.iso f (r.refs f.rule_code),
      value_lem f.finding_status,
    )

  -- What is sent has two sections, "confirmed" with exactly the rows of the document's section of that
  -- name whose status is CONFIRMED_VIOLATION, in order, and "negative_verified" with those of its own whose
  -- status is NEGATIVE_VERIFIED; it has as many violations as rows in the first, no account of the
  -- revisions, and every other field of the document as it was.
  pub protocol_for_rin_lem :
      (payload : Fields Float) {out : Fields Float}
      → protocol_for_rin payload ≡ ok out
      → (violations : Items Float) × (negative : Items Float) × (get "sections" out
          ≡ some (two_sections violations negative))
        × AreSelectedOf "CONFIRMED_VIOLATION"
            (raw_section (get "sections" payload) "confirmed")
            violations
        × AreSelectedOf "NEGATIVE_VERIFIED"
            (raw_section (get "sections" payload) "negative_verified")
            negative
        × (get "violation_count" out ≡ some (Json.int (count_items violations)))
        × (get "revision_changes" out ≡ none)
        × ((k : String)
            → get k out ≡ (
                if "violation_count" == k
                then some (Json.int (count_items violations))
                else if "sections" == k
                then some (two_sections violations negative)
                else if "revision_changes" == k
                then none
                else get k payload))
  unfolding protocol_for_rin
  protocol_for_rin_lem payload {out} h =
      let clone = pop "revision_changes" payload in
      let raw = get "sections" clone in
      let (violations, e, h1) =
        >>=-eq-ok (clean_section "confirmed" "CONFIRMED_VIOLATION" (raw_section raw "confirmed")) _
          h in
      let (negative, e', h2) =
        >>=-eq-ok
          (clean_section "negative_verified" "NEGATIVE_VERIFIED"
            (raw_section raw "negative_verified"))
          _ h1 in
      let sections = put "sections" (two_sections violations negative) clone in
      let counted = get-put "violation_count" in
      let count = Json.int (count_items violations) in
      let placed = λ (k : String). get-put "sections" k (two_sections violations negative) clone in
      let at_out : out ≡ put "violation_count" count sections = ground (arith, h2) in
      let whole = get-pop_ne "revision_changes" "sections" payload refl in
      (
        violations,
        negative,
        rw at_out (counted "sections" count sections ∙ placed "sections"),
        subst (λ v. AreSelectedOf "CONFIRMED_VIOLATION" (raw_section v "confirmed") violations)
            whole
            (clean_section-AreSelectedOf "confirmed" _ (raw_section raw "confirmed")
              (value_lem confirmed_violation).0 e),
        subst (λ v. AreSelectedOf "NEGATIVE_VERIFIED" (raw_section v "negative_verified") negative)
            whole
            (clean_section-AreSelectedOf "negative_verified" _ (raw_section raw "negative_verified")
              (value_lem negative_verified).0 e'),
        rw at_out (counted "violation_count" count sections),
        rw at_out (
            counted "revision_changes" count sections
            ∙ placed "revision_changes"
            ∙ get-pop_self "revision_changes" payload),
        λ k. rw at_out (
            counted k count sections
            ∙ ap (λ rest. if "violation_count" == k then some count else rest)
                (placed k
                  ∙ ap
                      (λ rest.
                        if "sections" == k then some (two_sections violations negative) else rest)
                      (get-pop "revision_changes" k payload))),
      )

  -- A document that already has the form of what is sent is sent as it is.
  protocol_for_rin_keeps :
      (payload : Fields Float) (violations negative : Items Float)
      → get "sections" payload ≡ some (two_sections violations negative)
      → HaveStatus "CONFIRMED_VIOLATION" violations
      → HaveStatus "NEGATIVE_VERIFIED" negative
      → get "violation_count" payload ≡ some (Json.int (count_items violations))
      → get "revision_changes" payload ≡ none
      → protocol_for_rin payload ≡ ok payload
  unfolding protocol_for_rin get
  protocol_for_rin_keeps payload violations negative at_sections allowed allowed' at_count absent =
      rw (pop_of_absent "revision_changes" payload absent) (
        rw at_sections (
          rw
            (clean_section_of_HaveStatus "confirmed" "CONFIRMED_VIOLATION" violations
              (value_lem confirmed_violation).0 allowed)
            (rw
              (clean_section_of_HaveStatus "negative_verified" "NEGATIVE_VERIFIED" negative
                (value_lem negative_verified).0 allowed')
              (rw (put_of_present "sections" (two_sections violations negative) payload at_sections)
                (rw
                  (put_of_present "violation_count" (Json.int (count_items violations)) payload
                    at_count)
                  refl)))))

  -- Sending what was sent changes nothing.
  pub protocol_for_rin_idempotent :
      (payload : Fields Float) {out : Fields Float}
      → protocol_for_rin payload ≡ ok out
      → protocol_for_rin out ≡ ok out
  protocol_for_rin_idempotent payload {out} h =
      let (violations, negative, at_sections, chosen, chosen', at_count, absent, rest) =
        protocol_for_rin_lem payload h in
      let raw = get "sections" payload in
      protocol_for_rin_keeps out violations negative at_sections
        (AreSelectedOf-HaveStatus _ (raw_section raw "confirmed") violations chosen)
        (AreSelectedOf-HaveStatus _ (raw_section raw "negative_verified") negative chosen') at_count
        absent

  -- Of an assembled protocol exactly the cards of the findings that are CONFIRMED_VIOLATION and of those
  -- that are NEGATIVE_VERIFIED are sent, in order, and the number of violations is the number of the
  -- former.
  pub assembled_is_delivered :
      (r : Request Float) (fs : List (Finding Float)) {p : Fields Float}
      → assemble_protocol r fs ≡ ok p
      → (out : Fields Float) × (protocol_for_rin p ≡ ok out)
        × (get "sections" out
            ≡ some (
                two_sections
                  (items (cards_with r confirmed_violation fs))
                  (items (cards_with r negative_verified fs))))
        × (get "violation_count" out
            ≡ some (Json.int (count_items (items (cards_with r confirmed_violation fs)))))
  unfolding protocol_for_rin get sections_json
  assembled_is_delivered r fs {p} h =
      let (sections, each, at_sections, at_count) = assemble_protocol_lem r fs h in
      let violations = items (cards r confirmed fs) in
      let negative = items (cards r negatives fs) in
      let clone = pop "revision_changes" p in
      let sent = put "sections" (two_sections violations negative) clone in
      (
        put "violation_count" (Json.int (count_items violations)) sent,
        rw (get-pop_ne "revision_changes" "sections" p refl) (
            rw at_sections (
              rw (each confirmed) (
                rw (each negatives) (
                  rw
                    (clean_section_of_HaveStatus "confirmed" "CONFIRMED_VIOLATION" violations
                      (value_lem confirmed_violation).0 (confirmed_rows r fs))
                    (rw
                      (clean_section_of_HaveStatus "negative_verified" "NEGATIVE_VERIFIED" negative
                        (value_lem negative_verified).0 (negative_rows r fs))
                      refl))))),
        rw (sym (cards-confirmed r fs), sym (cards-negatives r fs))
            (ground (
              arith,
              get-put "violation_count" "sections" (Json.int (count_items violations)) sent,
              get-put "sections" "sections" (two_sections violations negative) clone,
            )),
        rw (sym (cards-confirmed r fs)) (
            ground (
              arith,
              get-put "violation_count" "violation_count" (Json.int (count_items violations)) sent,
            )),
      )
