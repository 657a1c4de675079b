-- ===== src/Protocol/Wire.antt =====
-- `protocol_for_http`, `protocol_for_rin` and the guards of protocol.py: what leaves the service.
use kontur.Prelude.{
  ℕ, Bool, true, false, Option, none, some, String, Result, ok, err, ◌>>=◌, ◌>>◌, raise_if, ◌==◌,
  ltb, nat_eq, if◌then◌else◌,
}
use Prim.Native.String.{◌++◌ as concat}
use text.Mathlib.Text.{starts_with}
use kontur.Prelude.{String_eq, or_raise}
use kontur.Prelude.Text.{lacks_text}
use kontur.Prelude.Text.Decimal.{decimal}
use kontur.Prelude.Json.{Json, Items, Fields, end, field, nil, cons, count_items, get, put, pop}

-- The `ValueError`s, by what is wrong.
pub data PayloadError : Type 0 where
  invalid : String → PayloadError

unfoldable pub protocol_identity : String → ℕ → Result PayloadError String
protocol_identity process_id version = do
  raise_if (lacks_text process_id) (invalid "process_id обязателен")
  raise_if (ltb version 1) (invalid "version должен быть >= 1")
  if nat_eq version 1
      then ok (concat "protocol-" process_id)
      else ok (concat "protocol-" (concat process_id (concat "-v" (decimal version))))

abbrev pub is_status : String → Option String → Bool
is_status status none = false
is_status status (some t) = t == status

module _ {Float : Type 0} where
  abbrev is_text : String → Option (Json Float) → Bool
  is_text s (some (Json.text t)) = t == s
  is_text s _ = false

  abbrev is_false : Option (Json Float) → Bool
  is_false (some (Json.bool false)) = true
  is_false _ = false

  -- `isinstance(v, str) and v.strip()`
  abbrev pub worded_text : Option (Json Float) → Option String
  worded_text (some (Json.text t)) = if lacks_text t then none else some t
  worded_text _ = none

  unfoldable pub reject_placeholder_payload : Fields Float → Result PayloadError (Unit {0})
  reject_placeholder_payload payload = do
    raise_if (is_text "internal_placeholder" (get "kind" payload))
        (invalid "internal_placeholder нельзя материализовать")
    raise_if (is_false (get "assembled" payload)) (invalid "assembled=false нельзя материализовать")
    protocol_id ←
        or_raise (worded_text (get "protocol_id" payload)) (invalid "protocol_id обязателен")
    raise_if (starts_with protocol_id "placeholder-") (invalid "placeholder protocol_id запрещён")

  without_preliminary : Option (Json Float) → Fields Float → Fields Float
  without_preliminary (some (Json.obj sections)) d =
      put "sections" (Json.obj (pop "preliminary_no_difference" sections)) d
  without_preliminary _ d = d

  unfoldable pub protocol_for_http : Fields Float → Fields Float
  unfolding without_preliminary
  protocol_for_http payload = without_preliminary (get "sections" payload) payload

  -- A row is kept if its status is a text, is not blank and is the allowed one.
  abbrev pub is_allowed : String → Fields Float → Bool
  is_allowed status row = is_status status (worded_text (get "finding_status" row))

  unfoldable pub clean_rows : String → String → Items Float → Result PayloadError (Items Float)
  clean_rows key status nil = ok nil
  clean_rows key status (cons (Json.obj row) rows) = do
    rest ← clean_rows key status rows
    ok (if is_allowed status row then cons (Json.obj row) rest else rest)
  clean_rows key status (cons _ rows) =
      err (invalid (concat "sections." (concat key ": строка не объект")))

  -- `raw_sections.get(key, [])`, cleaned
  unfoldable pub clean_section :
      String → String → Option (Json Float) → Result PayloadError (Items Float)
  unfolding clean_rows
  clean_section key status none = ok nil
  clean_section key status (some (Json.arr rows)) = clean_rows key status rows
  clean_section key status (some _) = err (invalid (concat "sections." key))

  abbrev pub raw_section : Option (Json Float) → String → Option (Json Float)
  raw_section (some (Json.obj sections)) key = get key sections
  raw_section _ key = none

  unfoldable pub protocol_for_rin : Fields Float → Result PayloadError (Fields Float)
  unfolding clean_section
  protocol_for_rin payload = do
    let clone = pop "revision_changes" payload
    let raw = get "sections" clone
    confirmed ← clean_section "confirmed" "CONFIRMED_VIOLATION" (raw_section raw "confirmed")
    negative ←
        clean_section "negative_verified" "NEGATIVE_VERIFIED" (raw_section raw "negative_verified")
    let sections =
        Json.obj (
          field "confirmed" (Json.arr confirmed)
            (field "negative_verified" (Json.arr negative) end))
    ok (put "violation_count" (Json.int (count_items confirmed)) (put "sections" sections clone))
