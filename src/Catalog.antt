-- ===== src/Catalog.antt =====
-- backend/src/kontur/application/completeness_catalog.py: the rows of the completeness table.
-- The catalogue of sections is data, an argument; so are
-- `str`, Python's text of a JSON value, and the test of a float for zero.
use kontur.Prelude.{
  zero, ◌≡◌, inl, inr, Bool, false, Option, none, some, String, List, [], ◌∷◌, ◌++◌, All,
  if◌then◌else◌, Bool-cases, arith,
}
use Prim.Native.String.{◌++◌ as concat}
use kontur.Prelude.Text.{strip, is_blank}
use kontur.Prelude.{All-append}
use kontur.Prelude.Json.{Json, Items, Fields, end, field, nil, cons, get}
use kontur.Domain.Status.{Completeness, uploaded, partial, missing}
use kontur.Domain.StatusMap.{completeness_value, tz_upload_prefix}
use kontur.Domain.Models.{DocStage, pd, rd, id}
use kontur.Scenario.{CompletenessMap, of_stage}

abbrev pub stage_key : DocStage → String
stage_key pd = "pd"
stage_key rd = "rd"
stage_key id = "id"

abbrev pub get_completeness : Option Completeness → Completeness
get_completeness none = missing
get_completeness (some c) = c

abbrev pub outcome_of : Completeness → String
outcome_of missing = "MISSING"
outcome_of partial = "STAGE_PARTIAL_NOT_VERIFIED"
outcome_of uploaded = "STAGE_UPLOADED_NOT_VERIFIED"

module _ {Float : Type 0} (str : Json Float → String) (is_zero : Float → Bool) where
  -- `", ".join(str(x) for x in raw)`
  join : Items Float → String
  join nil = ""
  join (cons x nil) = str x
  join (cons x (cons y ys)) = concat (str x) (concat ", " (join (cons y ys)))

  label_of : Option (Json Float) → String
  unfolding join
  label_of none = ""
  label_of (some Json.null) = ""
  label_of (some (Json.arr xs)) = join xs
  label_of (some v) = str v

  expected_label : Fields Float → DocStage → String
  unfolding label_of
  expected_label section stage = label_of (get (stage_key stage) section)

  -- `str(section.get("code") or "").strip()`: what is false in Python counts as the empty text.
  code_of : Option (Json Float) → String
  code_of none = ""
  code_of (some Json.null) = ""
  code_of (some (Json.bool false)) = ""
  code_of (some (Json.int zero)) = ""
  code_of (some (Json.float x)) = if is_zero x then "" else strip (str (Json.float x))
  code_of (some (Json.arr nil)) = ""
  code_of (some (Json.obj end)) = ""
  code_of (some v) = strip (str v)

  row : String → DocStage → String → Completeness → Json Float
  row code stage expected state =
      let outcome = outcome_of state in
      Json.obj (
        field "section_code" (Json.text code) (
          field "stage" (Json.text (tz_upload_prefix stage)) (
            field "expected_document" (Json.text expected) (
              field "upload_state" (Json.text (completeness_value state)) (
                field "outcome" (Json.text outcome) (
                  field "counts_as_violation" (Json.bool false) (
                    field "kind" (Json.text "section_catalog") (
                      field "finding_id"
                        (Json.text (
                          concat "completeness-"
                            (concat code (concat "-" (tz_upload_prefix stage)))))
                        (field "rule_code" (Json.text (concat "COMPLETENESS-" code)) (
                          field "finding_status" (Json.text outcome) (
                            field "rationale"
                              (Json.text (
                                concat "Каталог раздела " (
                                  concat code (
                                    concat ": ожидается «" (
                                      concat expected (
                                        concat "» на стадии " (
                                          concat (tz_upload_prefix stage) (
                                            concat "; комплектность стадии = " (
                                              concat (completeness_value state)
                                                ". Не нарушение.")))))))))
                              end)))))))))))

  stage_rows : CompletenessMap → Fields Float → String → List DocStage → List (Json Float)
  unfolding expected_label row
  stage_rows m section code [] = []
  stage_rows m section code (stage ∷ stages) =
      let rest = stage_rows m section code stages in
      let expected = expected_label section stage in
      if is_blank expected
      then rest
      else row code stage expected (get_completeness (of_stage m stage)) ∷ rest

  unfoldable pub completeness_rows_from_catalog :
      CompletenessMap → List (Fields Float) → List (Json Float)
  unfolding stage_rows code_of
  completeness_rows_from_catalog m [] = []
  completeness_rows_from_catalog m (section ∷ sections) =
      let rest = completeness_rows_from_catalog m sections in
      let code = code_of (get "code" section) in
      if is_blank code then rest else stage_rows m section code (pd ∷ rd ∷ id ∷ []) ++ rest

-- What a row says about violations.
abbrev pub IsNoViolation : {Float : Type 0} → Json Float → Type 0
IsNoViolation (Json.obj d) = get "counts_as_violation" d ≡ some (Json.bool false)
IsNoViolation _ = ⊥

module _ {Float : Type 0} (str : Json Float → String) (is_zero : Float → Bool)
    (m : CompletenessMap) where
  stage_rows-IsNoViolation :
      (section : Fields Float) (code : String) (stages : List DocStage)
      → All IsNoViolation (stage_rows str is_zero m section code stages)
  unfolding stage_rows get
  stage_rows-IsNoViolation section code [] = tt
  stage_rows-IsNoViolation section code (stage ∷ stages) =
      ground (arith, stage_rows-IsNoViolation section code stages)

  -- Whatever is missing, and whatever the catalogue says, no row of the completeness table counts as a
  -- violation.
  pub completeness_rows-IsNoViolation :
      (catalog : List (Fields Float))
      → All IsNoViolation (completeness_rows_from_catalog str is_zero m catalog)
  unfolding completeness_rows_from_catalog
  completeness_rows-IsNoViolation [] = tt
  completeness_rows-IsNoViolation (section ∷ sections) =
      elim (Bool-cases (is_blank (code_of str is_zero (get "code" section)))) [
        | inl blank ↦ rw blank (completeness_rows-IsNoViolation sections)
        | inr coded ↦ rw coded (
            All-append IsNoViolation
              (stage_rows str is_zero m section (code_of str is_zero (get "code" section))
                (pd ∷ rd ∷ id ∷ []))
              (completeness_rows_from_catalog str is_zero m sections)
              (stage_rows-IsNoViolation section (code_of str is_zero (get "code" section))
                (pd ∷ rd ∷ id ∷ []))
              (completeness_rows-IsNoViolation sections))
      ]
