-- ===== src/Review/Batch.antt =====
-- Confirming many candidates at once: all or none.
use kontur.Prelude.{
  ℕ, ◌+◌, ◌≡◌, refl, ◌∙◌, Bool, true, not, ◌&&◌, none, some, String, List, [], ◌∷◌, map, length,
  is_empty, all, Result, ok, is_ok, ◌==◌, ltb, nat_eq, arith,
}
use kontur.Prelude.{>>=-eq-ok, String_eq}
use kontur.Prelude.Text.{lacks_text}
use kontur.Domain.Status.{FindingStatus_eq, candidate, confirmed_violation, ProcessState_eq}
use kontur.Domain.Machine.{Actor, advance_finding}
use kontur.Domain.Models.{Finding}
use kontur.Domain.Models.Checks.{lacks_id}
use kontur.Review.{
  ReviewError, action_to_status, review, unique, first_other, confirm_each, confirm_candidates,
}
use kontur.Review.Decision.{decision, review_ok_iff, review_lem}

module _ {Float : Type 0} (actor : Actor) (comment : String) where
  -- The finding as the batch leaves it.
  abbrev pub as_confirmed : ℕ → Finding Float → Finding Float
  as_confirmed now f = record f {
    finding_status = confirmed_violation;
    inspector_decision = some (decision actor now "CONFIRM" none comment);
  }

  -- One call of the loop.
  abbrev confirm_one : ℕ → Finding Float → Result ReviewError (Finding Float)
  confirm_one now f = review f actor now "CONFIRM" none (some comment)

  confirm_one_ok :
      (now : ℕ) (f : Finding Float)
      → is_ok (confirm_one now f) ≡ (
          not (lacks_text comment)
          && (is_ok (advance_finding f.finding_status confirmed_violation actor)
              && not (lacks_id f.evidence_group_id)))
  confirm_one_ok now f =
      review_ok_iff f actor now none "CONFIRM" (some comment)
      ∙ (unfold action_to_status in ground arith)

  confirm_one_lem :
      (now : ℕ) (f g : Finding Float) → confirm_one now f ≡ ok g → g ≡ as_confirmed now f
  confirm_one_lem now f g h =
      let (t, w, e, ew, m, eg) = review_lem f actor now none "CONFIRM" (some comment) h in
      unfold action_to_status in cc

  is_ok-first_other :
      (fs : List (Finding Float))
      → is_ok (first_other fs) ≡ all (λ f. f.finding_status == candidate) fs
  unfolding first_other
  is_ok-first_other [] = refl
  is_ok-first_other (f ∷ fs) = ground (arith, is_ok-first_other fs)

  -- The batch's own conditions: it is not empty, it has at most 50 findings, no finding occurs twice,
  -- a human acts, and every finding is a CANDIDATE.
  abbrev pub is_batch : List (Finding Float) → Bool
  is_batch fs =
      not (is_empty fs)
      && (not (ltb 50 (length fs))
          && (nat_eq (length (map (λ (f : Finding Float). f.finding_id) fs))
                (length (unique (map (λ (f : Finding Float). f.finding_id) fs)))
              && (actor.is_human && all (λ f. f.finding_status == candidate) fs)))

  -- What the loop asks of one finding.
  abbrev is_confirmable : Finding Float → Bool
  is_confirmable f =
      not (lacks_text comment)
      && (is_ok (advance_finding f.finding_status confirmed_violation actor)
          && not (lacks_id f.evidence_group_id))

  is_ok-confirm_each :
      (fs : List (Finding Float)) (clock : ℕ → ℕ)
      → is_ok (confirm_each actor clock comment fs) ≡ all is_confirmable fs
  unfolding confirm_each
  is_ok-confirm_each [] clock = refl
  is_ok-confirm_each (f ∷ fs) clock =
      ground (arith, confirm_one_ok (clock 0) f, is_ok-confirm_each fs (λ n. clock (n + 1)))

  loop_ok :
      (fs : List (Finding Float))
      → actor.is_human ≡ true
      → all (λ f. f.finding_status == candidate) fs ≡ true
      → not (is_empty fs) ≡ true
      → all is_confirmable fs
        ≡ (not (lacks_text comment) && all (λ f. not (lacks_id f.evidence_group_id)) fs)
  unfolding advance_finding
  loop_ok [] human cs ne = cc
  loop_ok (f ∷ []) human cs ne = ground arith
  loop_ok (f ∷ f' ∷ fs) human cs ne = ground (arith, loop_ok (f' ∷ fs) human)

  -- A batch is confirmed exactly when it is not empty, has at most 50 findings and none twice, a human
  -- acts, every finding is a CANDIDATE with an evidence group, and the comment is not blank; otherwise
  -- nothing of it is.
  pub confirm_candidates_ok_iff :
      (clock : ℕ → ℕ) (fs : List (Finding Float))
      → is_ok (confirm_candidates fs actor clock comment) ≡ (
          is_batch fs
          && (not (lacks_text comment) && all (λ f. not (lacks_id f.evidence_group_id)) fs))
  unfolding confirm_candidates
  confirm_candidates_ok_iff clock fs =
      ground (arith, is_ok-first_other fs, loop_ok fs, is_ok-confirm_each fs clock)

  -- The findings, each confirmed with its own reading of the clock.
  abbrev pub all_confirmed : (ℕ → ℕ) → List (Finding Float) → List (Finding Float)
  all_confirmed clock [] = []
  all_confirmed clock (f ∷ fs) = as_confirmed (clock 0) f ∷ all_confirmed (λ n. clock (n + 1)) fs

  confirm_each_lem :
      (fs : List (Finding Float)) (clock : ℕ → ℕ) {gs : List (Finding Float)}
      → confirm_each actor clock comment fs ≡ ok gs
      → gs ≡ all_confirmed clock fs
  unfolding confirm_each
  confirm_each_lem [] clock h = ground (arith, h)
  confirm_each_lem (f ∷ fs) clock {gs} h =
      let (g, e, h') = >>=-eq-ok (confirm_one (clock 0) f) _ h in
      let (rest, e', h'') = >>=-eq-ok (confirm_each actor (λ n. clock (n + 1)) comment fs) _ h' in
      let first = confirm_one_lem (clock 0) f g e in
      let others = confirm_each_lem fs (λ n. clock (n + 1)) e' in ground (arith, h'', first, others)

  -- A confirmed batch has the given findings in the given order, each confirmed by the actor with the
  -- comment at the time that the clock shows then, and otherwise unchanged.
  pub confirm_candidates_lem :
      (clock : ℕ → ℕ) (fs : List (Finding Float)) {gs : List (Finding Float)}
      → confirm_candidates fs actor clock comment ≡ ok gs
      → gs ≡ all_confirmed clock fs
  unfolding confirm_candidates
  confirm_candidates_lem clock fs {gs} h =
      let each : confirm_each actor clock comment fs ≡ ok gs = ground (arith, h) in
      confirm_each_lem fs clock each
