-- ===== src/Intake/Batch/Answer.antt =====
-- The status code that a decision on an upload carries.
use kontur.Prelude.{
  ℕ, ◌≤◌, ◌≡◌, ◌↔◌, refl, sym, ◌∙◌, inl, inr, Bool, true, false, Option, none, some, String, List,
  [], ◌∷◌, ltb, is_empty, if◌then◌else◌, All, Bool-cases, arith,
}
use kontur.Intake.{
  UploadCandidate, Rejection, IntakeDecision, max_batch_bytes, check_file, http_status, status_for,
  http_status_of, RejectionReason, unsupported_format, corrupted_file, file_too_large,
  batch_limit_exceeded, antivirus_rejected, encrypted_file, processing_timeout, unsafe_filename,
}
use kontur.Intake.Batch.{
  verdict_of_hash, verdict_of, seen_after, placed, total, verdict, batch_from, evaluate_batch, has,
  too_large,
}

http_status_of-le : (r : RejectionReason) → 413 ≤ http_status_of r
http_status_of-le unsupported_format = omega arith
http_status_of-le corrupted_file = omega arith
http_status_of-le file_too_large = omega arith
http_status_of-le batch_limit_exceeded = omega arith
http_status_of-le antivirus_rejected = omega arith
http_status_of-le encrypted_file = omega arith
http_status_of-le processing_timeout = omega arith
http_status_of-le unsafe_filename = omega arith

status_for_lem : (rs : List Rejection) → (status_for rs ≡ 202) ↔ (is_empty rs ≡ true)
status_for_lem [] = ((λ h. refl), (λ h. refl))
status_for_lem (r ∷ rs) =
    ((λ h. ground (arith, h, http_status_of-le r.reason)), (λ h. ground (arith, h)))

http_status_lem : (d : IntakeDecision) → (http_status d ≡ 202) ↔ (is_empty d.rejected ≡ true)
unfolding http_status
http_status_lem d = status_for_lem d.rejected

module _ (utf8_length : String → ℕ) (suffix_of : String → String)
    (members_of : List ℕ → Option (List (ℕ × ℕ))) where
  abbrev IsTakeable : UploadCandidate → Type 0
  IsTakeable c = check_file utf8_length suffix_of members_of c ≡ none

  abbrev IsClean : IntakeDecision → List UploadCandidate → Type 0
  IsClean d items = (is_empty d.rejected ≡ true) ↔ All IsTakeable items

  verdict_of_hash-IsClean :
      (seen : List String) (o : Option String) (item : UploadCandidate) (d : IntakeDecision)
      → is_empty (placed (verdict_of_hash seen o) item d).rejected ≡ is_empty d.rejected
  verdict_of_hash-IsClean seen none item d = refl
  verdict_of_hash-IsClean seen (some hash) item d = elim (Bool-cases (has seen hash)) [
    | inl e ↦ rw e refl
    | inr e ↦ rw e refl
  ]

  placed-IsClean :
      (o : Option Rejection) (seen : List String) (item : UploadCandidate) (d : IntakeDecision)
      (items : List UploadCandidate)
      → check_file utf8_length suffix_of members_of item ≡ o
      → IsClean d items
      → IsClean (placed (verdict_of seen item.content_hash o) item d) (item ∷ items)
  placed-IsClean none seen item d items e h =
      let same = verdict_of_hash-IsClean seen item.content_hash item d in
      ((λ empty. (e, h.0 (sym same ∙ empty))), (λ all. same ∙ h.1 all.1))
  placed-IsClean (some problem) seen item d items e h =
      ((λ empty. ground (arith, empty)), (λ all. ground (arith, all.0, e)))

  batch_from-IsClean :
      (seen : List String) (items : List UploadCandidate)
      → IsClean (batch_from utf8_length suffix_of members_of seen items) items
  unfolding verdict
  batch_from-IsClean seen [] = ((λ h. tt), (λ h. refl))
  batch_from-IsClean seen (item ∷ items) =
      let v = verdict utf8_length suffix_of members_of seen item in
      placed-IsClean (check_file utf8_length suffix_of members_of item) seen item
        (batch_from utf8_length suffix_of members_of (seen_after v item seen) items) items refl
        (batch_from-IsClean (seen_after v item seen) items)

  -- A decision carries 202 exactly if the upload is at most 200 MB and each of its files passes the
  -- checks. Of a larger one it carries 413, and nothing is taken.
  pub evaluate_batch-http_status :
      (items : List UploadCandidate)
      → ((http_status (evaluate_batch utf8_length suffix_of members_of items) ≡ 202) ↔ (
          (ltb max_batch_bytes (total items) ≡ false)
          × All (λ c. check_file utf8_length suffix_of members_of c ≡ none) items))
        × (ltb max_batch_bytes (total items) ≡ true
            → (http_status (evaluate_batch utf8_length suffix_of members_of items) ≡ 413)
              × ((evaluate_batch utf8_length suffix_of members_of items).accepted ≡ []))
  unfolding evaluate_batch http_status
  evaluate_batch-http_status items = by_size (ltb max_batch_bytes (total items))
    where
      by_size :
          (b : Bool)
          → let d =
              if b then too_large items else batch_from utf8_length suffix_of members_of [] items in
            ((http_status d ≡ 202) ↔ ((b ≡ false) × All IsTakeable items))
            × (b ≡ true → (http_status d ≡ 413) × (d.accepted ≡ []))
      by_size true = (((λ h. ground (arith, h)), (λ h. ground (arith, h.0))), (λ h. (refl, refl)))
      by_size false =
          let d = batch_from utf8_length suffix_of members_of [] items in
          let clean = batch_from-IsClean [] items in
          (
            (
              (λ h. (refl, clean.0 ((http_status_lem d).0 h))),
              (λ h. (http_status_lem d).1 (clean.1 h.1)),
            ),
            (λ h. ground (arith, h)),
          )
