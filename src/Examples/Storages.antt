-- ===== src/Examples/Storages.antt =====
-- Evidence and findings through what the database stores of them.
use kontur.Prelude.{
  ap, zero, suc, ℕ, ◌+◌, ◌-◌, ◌*◌, max, ◌≡◌, refl, true, none, some, String, List, [], ◌∷◌, ltb,
  leb, nat_eq, ok,
}
use kontur.Prelude.Text.{lacks_text, strip, lstrip, rstrip, is_space}
use kontur.Prelude.Json.{Json, Fields}
use kontur.Prelude.Floats.{Floats}
use kontur.Domain.Models.{
  DocumentRef, EvidenceFragment, EvidenceGroup, Extraction, expected, actual, vector, Value,
}
use kontur.Domain.Models.Checks.{new_fragment, new_group, new_finding, is_file_hash, polygon_points}
use kontur.Storage.Evidence.{Casts, array}
use kontur.Storage.Groups.{encode_group, decode_group}
use kontur.Storage.GroupTrip.{decode_group-encode}
use kontur.Storage.FindingRow.{finding_to_params, finding_from_row}
use kontur.Prelude.{if◌then◌else◌, Bool}
use kontur.Prelude.Json.{end, get}
use kontur.Storage.FindingRow.{extra_of}
use kontur.Storage.FindingTrip.{has_plain_fields, is_plain, are_plain, finding_from_row-params}
use kontur.Prelude.Dict.{lookup, insert}
use kontur.Store.{MemoryProcessStore}
use kontur.Store.Records.{save_evidence_groups, load_evidence_groups}
use kontur.Store.Kept.{load_evidence_groups-save}
use kontur.Examples.Stores.{snapshot}
use kontur.Examples.Revisions.{first}
use kontur.Examples.{reviewed}

-- Floats by their millionths of a millionth.
abbrev floats : Floats
floats = record {
  Float = ℕ;
  ltb_float = ltb;
  leb_float = leb;
  eq_float = nat_eq;
  add_float = λ x y. x + y;
  sub_float = λ x y. x - y;
  mul_float = λ x y. x * y;
  div_float = λ x y. x;
  abs_float = λ x. x;
  max_float = max;
  literal = λ n. n;
}

-- A date is written by as many strokes as its number.
abbrev unary : ℕ → String
unary zero = ""
unary (suc n) = String.◌∷◌ "1" (unary n)

abbrev length_of : String → ℕ
length_of String.[] = 0
length_of (String.◌∷◌ c s) = suc (length_of s)

length_of-unary : (n : ℕ) → length_of (unary n) ≡ n
length_of-unary zero = refl
length_of-unary (suc n) = ap suc (length_of-unary n)

abbrev casts : Casts ℕ
casts = record {
  date_text = unary;
  date_of = λ s. some (length_of s);
  float_of = λ n. n;
  float_of_negative = λ n. 0;
}

dates_are_read : (n : ℕ) → some (length_of (unary n)) ≡ some n
dates_are_read n = ap some (length_of-unary n)

abbrev read : Extraction ℕ
read = record {
  raw_token = "2,7 м";
  engine = vector;
  engine_version = "1";
  confidence = 900_000_000_000;
  normalized_value = some (Value.number 2_700_000_000_000);
  unit = some "м";
  grounded_in_source_tokens = true;
  second_read_agrees = none;
  confidence_features = ("gap", 5) ∷ [];
}

abbrev document : DocumentRef
document = record first {
  file_hash = "0123456789abcdef0123456789abcdef0123456789abcdef0123456789abcdef";
  approval_date = some 3;
}

abbrev corner : List (ℕ × ℕ)
corner = (0, 0) ∷ (0, 1) ∷ (1, 1) ∷ []

abbrev wanted : EvidenceFragment ℕ
wanted = record {
  fragment_id = "e1";
  role = expected;
  document = document;
  page = 1;
  polygon_source = corner;
  polygon_norm = corner;
  extracted = read;
  room_id = none;
}

abbrev found : EvidenceFragment ℕ
found = record wanted { fragment_id = "e2"; role = actual; room_id = some "r1" }

abbrev group : EvidenceGroup ℕ
group = record {
  evidence_group_id = "g1";
  object_id = "o1";
  rule_code = "R1";
  matrix_version = "m1";
  fragments = wanted ∷ found ∷ [];
  resolved_revisions = document ∷ [];
  prior_revision_fragments = wanted ∷ [];
}

group_is_valid : new_group group ≡ ok group
unfolding new_group
group_is_valid = refl

wanted_is_valid : new_fragment floats wanted ≡ ok wanted
unfolding new_fragment is_file_hash polygon_points
wanted_is_valid = refl

found_is_valid : new_fragment floats found ≡ ok found
unfolding new_fragment is_file_hash polygon_points
found_is_valid = refl

decode_group-encode_example : decode_group floats casts (encode_group floats casts group) ≡ ok group
decode_group-encode_example =
    decode_group-encode floats casts dates_are_read group group_is_valid
      (wanted_is_valid, (found_is_valid, tt)) (wanted_is_valid, tt)

abbrev str_value : Value ℕ → String
str_value v = ""

abbrev str_json : Json ℕ → String
str_json j = ""

reviewed_is_valid : new_finding reviewed ≡ ok reviewed
unfolding new_finding strip lstrip rstrip is_space lacks_text
reviewed_is_valid = refl

-- All the numbers of this file are plain, and an object with a text that is not storable is lost.
abbrev plain : ℕ → Bool
plain n = true

abbrev jsonb : Fields ℕ → Fields ℕ
jsonb d = if has_plain_fields plain d then d else end

jsonb_keeps :
    (name : String) (d : Fields ℕ)
    → has_plain_fields plain d ≡ true
    → get name (jsonb d) ≡ get name d
jsonb_keeps name d h = ap (λ b. get name (if b then d else end)) h

reviewed_is_plain : has_plain_fields plain (extra_of reviewed) ≡ true
unfolding has_plain_fields is_plain are_plain
reviewed_is_plain = refl

finding_from_row-params_example :
    finding_from_row str_json 9 (finding_to_params jsonb str_value "p1" reviewed) ≡ ok reviewed
finding_from_row-params_example =
    finding_from_row-params plain jsonb str_value str_json jsonb_keeps 9 "p1" reviewed
      reviewed_is_valid refl refl reviewed_is_plain

-- The store with one process, which keeps groups as JSON.
abbrev store : MemoryProcessStore ℕ String (Json ℕ)
store = record {
  rows = ("1", snapshot) ∷ [];
  findings = [];
  audit = [];
  protocols = [];
  full_protocols = [];
  outbox = [];
  evidence = [];
}

abbrev stored : MemoryProcessStore ℕ String (Json ℕ)
stored = record store { evidence = ("1", array (encode_group floats casts) (group ∷ [])) ∷ [] }

saved : save_evidence_groups floats casts (λ j. j) (λ j. j) "1" (group ∷ []) store ≡ ok stored
unfolding save_evidence_groups lookup insert
saved = refl

load_evidence_groups-save_example :
    load_evidence_groups floats casts (λ j. j) (λ j. j) "1" stored ≡ ok (group ∷ [])
load_evidence_groups-save_example =
    load_evidence_groups-save floats casts (λ j. j) (λ j. j) dates_are_read (λ j. refl) "1"
      (group ∷ []) store {after = stored}
      ((group_is_valid, (wanted_is_valid, (found_is_valid, tt)), (wanted_is_valid, tt)), tt) saved
