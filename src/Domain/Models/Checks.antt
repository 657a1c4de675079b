-- ===== src/Domain/Models/Checks.antt =====
-- The checks that models.py runs when an entity is built: `new_...` returns the entity, or the
-- `ValueError` that the constructor raises. The type parameter `Float` stands for the floats.
use kontur.Prelude.{
  ℕ, suc, Bool, true, false, not, ◌&&◌, ◌||◌, Option, none, some, is_some, String, List, length,
  is_empty, any, all, find, Result, ok, ◌>>◌, raise_if, ◌==◌, elem, ltb, leb, nat_eq, if◌then◌else◌,
}
use Prim.Native.Char.{code}
use mathlib.Core.Option
use kontur.Prelude.{String_eq}
use kontur.Prelude.Text.{is_blank, lacks_text}
use kontur.Prelude.Floats.{Floats}
use kontur.Domain.Status.{
  FindingStatus, FindingStatus_eq, confirmed_violation, negative_verified,
  statuses_requiring_evidence,
}
use kontur.Domain.Models.{
  EvidenceRole, expected, actual, context, Polygon, Extraction, EvidenceFragment, EvidenceGroup,
  InspectorDecision, Finding,
}

pub data ValueError : Type 0 where
  value_error : String → ValueError
  requires_group : FindingStatus → ValueError

-- `_FILE_HASH.fullmatch`: 64 characters, each a digit or one of a to f.
is_hex : ℕ → Bool
is_hex c = leb b'0' c && leb c b'9' || leb b'a' c && leb c b'f'

hex_length : String → Option ℕ
unfolding is_hex
hex_length String.[] = some 0
hex_length (String.◌∷◌ c s) =
    let rest = hex_length s in if is_hex (code c) then Option.map suc rest else none

unfoldable pub is_file_hash : String → Bool
unfolding hex_length
is_file_hash s = elim (hex_length s) [ none ↦ false | some n ↦ nat_eq n 64 ]

module _ (F : Floats) where
  open F use {Float, leb_float, literal}

  -- `0.0 <= x <= 1.0`
  in_unit : Float → Bool
  in_unit x = leb_float (literal 0) x && leb_float x (literal 1_000_000_000_000)

  -- A Boolean coordinate is ruled out by the type.
  unfoldable pub polygon_points : Polygon Float → Bool → Result ValueError (Unit {0})
  unfolding in_unit
  polygon_points polygon normalized = do
    raise_if (ltb (length polygon) 3) (value_error "polygon должен содержать не меньше трёх точек")
    raise_if (normalized && not (all (λ p. in_unit p.0 && in_unit p.1) polygon))
        (value_error "polygon_norm вне [0;1]")

  unfoldable pub new_fragment : EvidenceFragment Float → Result ValueError (EvidenceFragment Float)
  unfolding is_file_hash polygon_points
  new_fragment item = do
    raise_if (ltb item.page 1) (value_error "номер страницы начинается с 1, а не с 0")
    raise_if (not (is_file_hash item.document.file_hash))
        (value_error "file_hash должен быть SHA-256 в 64 hex-символах")
    polygon_points item.polygon_source false
    polygon_points item.polygon_norm true
    ok item

abbrev pub role_eq : EvidenceRole → EvidenceRole → Bool
role_eq expected expected = true
role_eq actual actual = true
role_eq context context = true
role_eq _ _ = false

-- `not group_id` of an optional text
abbrev pub lacks_id : Option String → Bool
lacks_id none = true
lacks_id (some s) = is_blank s

-- `not comment or not comment.strip()`
abbrev pub lacks_comment : Option String → Bool
lacks_comment none = true
lacks_comment (some c) = is_blank c || lacks_text c

-- `decision is None or decision.action != action`
abbrev pub lacks_action : Option InspectorDecision → String → Bool
lacks_action none action = true
lacks_action (some d) action = not (d.action == action)

abbrev pub decided :
    {A : Type 0} → Option InspectorDecision → (InspectorDecision → Option A) → Option A
decided none f = none
decided (some d) f = f d

module _ {Float : Type 0} where
  unfoldable pub usable_for_automatic_finding : Extraction Float → Bool
  usable_for_automatic_finding item =
      if not item.grounded_in_source_tokens
      then false
      else elim item.second_read_agrees [ none ↦ true | some agrees ↦ agrees ]

  has_role : EvidenceRole → List (EvidenceFragment Float) → Bool
  has_role r = any (λ item. role_eq item.role r)

  unfoldable pub new_group : EvidenceGroup Float → Result ValueError (EvidenceGroup Float)
  unfolding has_role
  new_group group = if is_empty group.fragments then ok group else do
    raise_if (not (has_role expected group.fragments) || not (has_role actual group.fragments))
        (value_error "evidence group требует роли expected и actual")
    ok group

  -- `EvidenceGroup.role`
  unfoldable pub group_role : EvidenceGroup Float → EvidenceRole → Option (EvidenceFragment Float)
  group_role group r = find (λ item. role_eq item.role r) group.fragments

  check_confirmed : Finding Float → Result ValueError (Unit {0})
  check_confirmed item = do
    raise_if (lacks_action item.inspector_decision "CONFIRM")
        (value_error "CONFIRMED_VIOLATION requires inspector CONFIRM")
    raise_if (lacks_comment (decided item.inspector_decision (λ d. d.comment)))
        (value_error "CONFIRMED_VIOLATION requires comment")

  check_negative : Finding Float → Result ValueError (Unit {0})
  check_negative item = do
    raise_if (lacks_action item.inspector_decision "REJECT")
        (value_error "NEGATIVE_VERIFIED requires inspector REJECT")
    raise_if (not (is_some (decided item.inspector_decision (λ d. d.reason_code))))
        (value_error "NEGATIVE_VERIFIED requires reason_code")
    raise_if (lacks_comment (decided item.inspector_decision (λ d. d.comment)))
        (value_error "NEGATIVE_VERIFIED requires comment")

  unfoldable pub new_finding : Finding Float → Result ValueError (Finding Float)
  unfolding check_confirmed check_negative
  new_finding item = do
    raise_if
        (elem item.finding_status statuses_requiring_evidence && lacks_id item.evidence_group_id)
        (requires_group item.finding_status)
    if item.finding_status == confirmed_violation then check_confirmed item else ok tt
    if item.finding_status == negative_verified then check_negative item else ok tt
    ok item

  unfoldable pub counts_as_violation : Finding Float → Bool
  counts_as_violation item =
      item.finding_status == confirmed_violation && is_some item.inspector_decision

  unfoldable pub has_provenance : Finding Float → Bool
  has_provenance item = not (lacks_id item.evidence_group_id) && not (lacks_id item.source_id)
