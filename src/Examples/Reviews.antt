-- ===== src/Examples/Reviews.antt =====
-- Runs of backend/src/kontur/application/review.py. Floats are numbers here.
use kontur.Prelude.{
  ℕ, String, ◌≡◌, refl, true, false, not, ◌&&◌, none, some, [], ◌∷◌, all, is_ok, returned, leb,
  if◌then◌else◌, ◌==◌,
}
use kontur.Prelude.Text.{strip, lacks_text}
use kontur.Domain.Status.{
  ProcessState_eq, ready, verifying, completed, finalized, FindingStatus, FindingStatus_eq,
  candidate, clarification_required,
}
use kontur.Domain.Machine.{advance_finding}
use kontur.Domain.Models.{Finding}
use kontur.Domain.Models.Checks.{new_finding, lacks_id}
use kontur.Review.{
  review, action_to_status, confirm_candidates, confirm_each, split, start_verification,
  unfinalize_process,
}
use kontur.Review.Decision.{
  decision, is_reviewable, review_ok_iff, review_lem, machine_only_asks, review_of_verdict,
}
use kontur.Review.Batch.{
  as_confirmed, all_confirmed, is_batch, confirm_candidates_ok_iff, confirm_candidates_lem,
}
use kontur.Review.Closing.{outcome, entry, logged_when, reopening_lem}
use kontur.Review.Splitting.{as_parts, are_parts, split_lem}
use kontur.Examples.{anna, robot, one, two, closed, reviewed}

review_ok_iff_example :
    is_ok (review one anna 7 "CONFIRM" none (some " да "))
    ≡ is_reviewable one anna "CONFIRM" none (some " да ") (action_to_status "CONFIRM")
review_ok_iff_example = review_ok_iff one anna 7 none "CONFIRM" (some " да ")

review_lem_example :
    (target : FindingStatus) × (words : String) × (action_to_status "CONFIRM" ≡ some target)
    × (some " да " ≡ some words)
    × (is_ok (advance_finding candidate target anna) ≡ true)
    × (reviewed ≡ record one {
      finding_status = target;
      inspector_decision = some (decision anna 7 "CONFIRM" none words);
    })
unfolding review action_to_status advance_finding new_finding strip lacks_text
review_lem_example = review_lem one anna 7 none "CONFIRM" (some " да ") {g = reviewed} refl

abbrev asked : Finding ℕ
asked = record one {
  finding_status = clarification_required;
  inspector_decision = some (decision robot 7 "REQUEST_CLARIFICATION" none "?");
}

machine_only_asks_example : asked.finding_status ≡ clarification_required
unfolding review action_to_status advance_finding new_finding strip lacks_text
machine_only_asks_example =
    machine_only_asks one robot 7 none "REQUEST_CLARIFICATION" (some "?") {g = asked} refl refl

review_of_verdict_example : is_ok (review closed anna 7 "CONFIRM" none (some "да")) ≡ false
review_of_verdict_example = review_of_verdict closed anna 7 none "CONFIRM" (some "да") refl

confirm_candidates_ok_iff_example :
    is_ok (confirm_candidates (one ∷ two ∷ []) anna (λ n. n) "да") ≡ (
      is_batch anna "да" (one ∷ two ∷ [])
      && (not (lacks_text "да") && all (λ f. not (lacks_id f.evidence_group_id)) (one ∷ two ∷ [])))
confirm_candidates_ok_iff_example = confirm_candidates_ok_iff anna "да" (λ n. n) (one ∷ two ∷ [])

confirm_candidates_lem_example :
    as_confirmed anna "да" 0 one ∷ as_confirmed anna "да" 1 two ∷ []
    ≡ all_confirmed anna "да" (λ n. n) (one ∷ two ∷ [])
unfolding confirm_candidates confirm_each review action_to_status advance_finding new_finding strip
    lacks_text
confirm_candidates_lem_example =
    confirm_candidates_lem anna "да" (λ n. n) (one ∷ two ∷ [])
      {gs = as_confirmed anna "да" 0 one ∷ as_confirmed anna "да" 1 two ∷ []} refl

split_lem_example : returned (split one [] anna) ≡ (
    if true && (candidate == candidate && (leb 2 0 && are_parts one [] []))
    then some (as_parts one 1 [])
    else none)
split_lem_example = split_lem one [] anna

reopening_lem_example :
    (outcome (start_verification finalized anna [])
      ≡ logged_when false verifying [] (entry anna "START_VERIFICATION" ready verifying []))
    × (outcome (unfinalize_process finalized anna "опечатка" [])
        ≡ logged_when true completed []
            (entry anna "UNFINALIZE" finalized completed (("reason", strip "опечатка") ∷ [])))
unfolding lacks_text
reopening_lem_example = reopening_lem finalized anna "опечатка" []
