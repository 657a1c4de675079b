-- ===== src/Review/Decision.antt =====
-- What one decision does to one finding, and when it is accepted.
use kontur.Prelude.{
  ℕ, ◌≡◌, refl, ◌∙◌, ◌⊎◌, inl, inr, Bool, true, false, not, ◌&&◌, ◌||◌, Option, none, some, is_some,
  String, eq_iff, ok, is_ok, ◌==◌, elem, Option-cases, arith,
}
use kontur.Prelude.{String_eq}
use kontur.Prelude.Text.{strip, lacks_text, lacks_text-strip, lacks_text_lem}
use kontur.Domain.Status.{
  FindingStatus, FindingStatus_eq, clarification_required, ReasonCode, ProcessState_eq,
  human_only_statuses, statuses_requiring_evidence,
}
use kontur.Domain.Machine.{Actor, advance_finding}
use kontur.Domain.Models.{InspectorDecision, Finding}
use kontur.Domain.Models.Checks.{new_finding, lacks_id}
use kontur.Review.{action_to_status, worded, review}

-- The decision that is written down.
abbrev pub decision : Actor → ℕ → String → Option ReasonCode → String → InspectorDecision
decision actor now action reason words = record {
  inspector_id = actor.actor_id;
  action = action;
  timestamp = now;
  reason_code = reason;
  comment = some (strip words);
}

worded-some :
    (c : Option String) (w : String) → worded c ≡ some w → (c ≡ some w) × (lacks_text w ≡ false)
worded-some none w h = cc
worded-some (some c) w h = ground arith

-- The condition on the arguments: a known action, a reason for a rejection, a comment, a move that
-- the state machine allows, and a group of evidence where the new status needs one.
abbrev pub is_reviewable :
    {Float : Type 0}
    → Finding Float
    → Actor
    → String
    → Option ReasonCode
    → Option String
    → Option FindingStatus
    → Bool
is_reviewable finding actor action reason comment none = false
is_reviewable finding actor action reason comment (some target) =
    (not (action == "REJECT") || is_some reason)
    && (is_some (worded comment)
        && (is_ok (advance_finding finding.finding_status target actor)
            && (not (elem target statuses_requiring_evidence)
                || not (lacks_id finding.evidence_group_id))))

pub action_cases :
    (action : String)
    → (action ≡ "CONFIRM")
      ⊎ (action ≡ "REJECT")
      ⊎ (action ≡ "REQUEST_CLARIFICATION")
      ⊎ (action_to_status action ≡ none)
unfolding action_to_status
action_cases action =
    ground (
      arith,
      eq_iff action "CONFIRM",
      eq_iff action "REJECT",
      eq_iff action "REQUEST_CLARIFICATION",
    )

module _ {Float : Type 0} (finding : Finding Float) (actor : Actor) (now : ℕ)
    (reason : Option ReasonCode) where
  -- The two sides of the equation below, for a given action and comment.
  abbrev Agrees : String → Option String → Type 0
  Agrees action comment =
      is_ok (review finding actor now action reason comment)
      ≡ is_reviewable finding actor action reason comment (action_to_status action)

  Agrees-confirm : (c : Option String) → Agrees "CONFIRM" c
  unfolding review new_finding
  Agrees-confirm none = ground arith
  Agrees-confirm (some c) = ground (arith, lacks_text-strip c, lacks_text_lem c)

  Agrees-reject : (c : Option String) → Agrees "REJECT" c
  unfolding review new_finding
  Agrees-reject none = ground arith
  Agrees-reject (some c) = ground (arith, lacks_text-strip c, lacks_text_lem c)

  Agrees-clarify : (c : Option String) → Agrees "REQUEST_CLARIFICATION" c
  unfolding review new_finding
  Agrees-clarify none = ground arith
  Agrees-clarify (some c) = ground (arith, lacks_text-strip c, lacks_text_lem c)

  Agrees-other :
      (action : String) (c : Option String) → action_to_status action ≡ none → Agrees action c
  unfolding review
  Agrees-other action c e = ground arith

  -- A decision is accepted exactly when the action is one of the three, a rejection has a reason,
  -- there is a comment that is not blank, the state machine allows the move to that actor, and the
  -- finding has an evidence group if its new status needs one.
  pub review_ok_iff :
      (action : String) (comment : Option String)
      → is_ok (review finding actor now action reason comment)
        ≡ is_reviewable finding actor action reason comment (action_to_status action)
  review_ok_iff action comment = elim (action_cases action) [
    | inl e ↦ rw e (Agrees-confirm comment)
    | inr (inl e) ↦ rw e (Agrees-reject comment)
    | inr (inr (inl e)) ↦ rw e (Agrees-clarify comment)
    | inr (inr (inr e)) ↦ Agrees-other action comment e
  ]

  -- A decision that is accepted sets the status that the action names and writes down who decided
  -- what and when, with the comment stripped; it changes no other field.
  pub review_lem :
      (action : String) (comment : Option String) {g : Finding Float}
      → review finding actor now action reason comment ≡ ok g
      → (target : FindingStatus) × (words : String) × (action_to_status action ≡ some target)
        × (comment ≡ some words)
        × (is_ok (advance_finding finding.finding_status target actor) ≡ true)
        × (g ≡ record finding {
          finding_status = target;
          inspector_decision = some (decision actor now action reason words);
        })
  unfolding review new_finding
  review_lem action none h = ground arith
  review_lem action (some c) h = elim (Option-cases (action_to_status action)) [
    | inl e' ↦ ground arith
    | inr (t, e') ↦ (t, c, e', refl, ground arith, ground arith)
  ]

  -- A machine's decision never gives a verdict: what it can do is ask for clarification.
  pub machine_only_asks :
      (action : String) (comment : Option String) {g : Finding Float}
      → actor.is_human ≡ false
      → review finding actor now action reason comment ≡ ok g
      → g.finding_status ≡ clarification_required
  machine_only_asks action comment machine h =
      let (t, w, e, e', moved, eg) = review_lem action comment h in
      rw eg (unfold advance_finding action_to_status in ground arith)

  not_reviewable :
      (action : String) (comment : Option String) (target : Option FindingStatus)
      → elem finding.finding_status human_only_statuses ≡ true
      → is_reviewable finding actor action reason comment target ≡ false
  unfolding advance_finding
  not_reviewable action comment none v = refl
  not_reviewable action comment (some t) v = ground arith

  -- A verdict is final: every decision on a finding that has one is refused, whoever makes it.
  pub review_of_verdict :
      (action : String) (comment : Option String)
      → elem finding.finding_status human_only_statuses ≡ true
      → is_ok (review finding actor now action reason comment) ≡ false
  review_of_verdict action comment v =
      review_ok_iff action comment ∙ not_reviewable action comment (action_to_status action) v
