-- ===== src/Intake/Batch.antt =====
-- `evaluate_batch`: the decision on a whole upload.
pub mod Decision
pub mod Answer
pub mod Upload
use kontur.Prelude.{
  ℕ, Bool, Option, none, some, String, List, [], ◌∷◌, any, ltb, ◌==◌, if◌then◌else◌,
}
use kontur.Prelude.{String_eq}
use kontur.Intake.{
  UploadCandidate, Rejection, IntakeDecision, batch_scope, max_batch_bytes, batch_limit_exceeded,
  batch_over_limit, sum_of, check_file,
}

abbrev pub has : List String → String → Bool
has hashes hash = any (λ h. h == hash) hashes

-- What becomes of one file.
pub data Verdict : Type 0 where
  refused : Rejection → Verdict
  repeated : Verdict
  taken : Verdict

-- A file without a hash is never a duplicate.
abbrev verdict_of_hash : List String → Option String → Verdict
verdict_of_hash seen none = taken
verdict_of_hash seen (some hash) = if has seen hash then repeated else taken

abbrev verdict_of : List String → Option String → Option Rejection → Verdict
verdict_of seen hash (some problem) = refused problem
verdict_of seen hash none = verdict_of_hash seen hash

abbrev with_hash : Option String → List String → List String
with_hash none seen = seen
with_hash (some hash) seen = hash ∷ seen

abbrev seen_after : Verdict → UploadCandidate → List String → List String
seen_after taken item seen = with_hash item.content_hash seen
seen_after _ item seen = seen

abbrev placed : Verdict → UploadCandidate → IntakeDecision → IntakeDecision
placed (refused problem) item d = record d { rejected = problem ∷ d.rejected }
placed repeated item d = record d { duplicates = item ∷ d.duplicates }
placed taken item d = record d { accepted = item ∷ d.accepted }

abbrev pub total : List UploadCandidate → ℕ
total = sum_of (λ c. c.size_bytes)

abbrev pub too_large : List UploadCandidate → IntakeDecision
too_large items = record {
  accepted = [];
  rejected =
      record {
        filename = batch_scope;
        reason = batch_limit_exceeded;
        detail = batch_over_limit (total items);
      }
      ∷ [];
  duplicates = [];
}

module _ (utf8_length : String → ℕ) (suffix_of : String → String)
    (members_of : List ℕ → Option (List (ℕ × ℕ))) where
  unfoldable pub verdict : List String → UploadCandidate → Verdict
  verdict seen item =
      verdict_of seen item.content_hash (check_file utf8_length suffix_of members_of item)

  -- The loop, with the hashes that it has seen.
  abbrev pub batch_from : List String → List UploadCandidate → IntakeDecision
  batch_from seen [] = record { accepted = []; rejected = []; duplicates = [] }
  batch_from seen (item ∷ items) =
      let v = verdict seen item in placed v item (batch_from (seen_after v item seen) items)

  unfoldable pub evaluate_batch : List UploadCandidate → IntakeDecision
  evaluate_batch items =
      if ltb max_batch_bytes (total items) then too_large items else batch_from [] items
