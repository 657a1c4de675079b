-- ===== src/Domain/Machine/Finding.antt =====
-- What `advance_finding` allows, in one step and along any sequence of requests.
use kontur.Prelude.{
  ◌≡◌, refl, ◌≢◌, ◌⊎◌, inl, inr, Bool, true, not, ◌&&◌, ◌||◌, List, [], ◌∷◌, any, Result, ok, err,
  is_ok, ◌==◌, elem, Bool-cases, arith,
}
use kontur.Domain.Status.{
  FindingStatus, human_only_statuses, FindingStatus_eq, missing_evidence, not_comparable,
  not_applicable, low_quality, abstain, confirmed_violation, negative_verified,
}
use kontur.Domain.Machine
use kontur.Domain.Machine.{Actor, finding_transitions, advance_finding}

-- A move succeeds exactly when the table has it, each of the two verdicts is asked for by a human,
-- and what was not applicable is reopened by a human.
pub advance_finding_iff :
    (current target : FindingStatus) (actor : Actor)
    → is_ok (advance_finding current target actor) ≡ (
        elem target (finding_transitions current)
        && (actor.is_human || not (elem target human_only_statuses || current == not_applicable)))
unfolding advance_finding
advance_finding_iff current target actor = ground arith

-- Requests to move one finding, in the order in which they come. A refused one changes nothing.
abbrev pub Request : Type 0
Request = FindingStatus × Actor

abbrev keep : FindingStatus → Result Machine.TransitionError FindingStatus → FindingStatus
keep s (ok t) = t
keep s (err _) = s

unfoldable pub run_requests : FindingStatus → List Request → FindingStatus
run_requests s [] = s
run_requests s ((target, actor) ∷ rs) = run_requests (keep s (advance_finding s target actor)) rs

-- The statuses with no way out, whoever asks.
abbrev pub settled_statuses : List FindingStatus
settled_statuses =
    confirmed_violation ∷ negative_verified ∷ missing_evidence ∷ not_comparable ∷ low_quality
    ∷ abstain ∷ []

keep_settled :
    (s t : FindingStatus) (a : Actor)
    → elem s settled_statuses ≡ true
    → keep s (advance_finding s t a) ≡ s
unfolding advance_finding
keep_settled s t a h = ground arith

-- A verdict of the inspector and a refusal of quality are final: no sequence of requests, by a
-- human or a machine, moves a finding out of one of the six settled statuses.
pub settled_absorbs :
    (s : FindingStatus) (rs : List Request) → elem s settled_statuses ≡ true → run_requests s rs ≡ s
unfolding run_requests
settled_absorbs s [] h = refl
settled_absorbs s ((t, a) ∷ rs) h = rw (keep_settled s t a h) (settled_absorbs s rs h)

-- A human asked for the status `v`.
abbrev pub human_asked : FindingStatus → List Request → Bool
human_asked v = any (λ r. r.1.is_human && r.0 == v)

keep_verdict :
    (s t v : FindingStatus) (a : Actor)
    → elem v human_only_statuses ≡ true
    → keep s (advance_finding s t a) ≡ v
    → (s ≡ v) ⊎ ((a.is_human && t == v) ≡ true)
unfolding advance_finding
keep_verdict s t v a h e = ground arith

-- A finding that did not start with the verdict `v` (confirmed or rejected) has it after a sequence
-- of requests only if a human asked for `v` in that sequence.
pub verdict_needs_human :
    (s v : FindingStatus) (rs : List Request)
    → elem v human_only_statuses ≡ true
    → s ≢ v
    → run_requests s rs ≡ v
    → human_asked v rs ≡ true
unfolding run_requests
verdict_needs_human s v [] h ne e = absurd (ne e)
verdict_needs_human s v ((t, a) ∷ rs) h ne e = elim (Bool-cases (a.is_human && t == v)) [
  | inl asked ↦ rw asked
  | inr other ↦ ground (
    arith,
    verdict_needs_human (keep s (advance_finding s t a)) v rs h
        (λ e'. ground (arith, keep_verdict s t v a h e')) e,
  )
]
