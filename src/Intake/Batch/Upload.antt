-- ===== src/Intake/Batch/Upload.antt =====
-- Which uploads the endpoint of backend/src/kontur/presentation/api.py refuses: the lines of its handler
-- after the antivirus and before the process is looked at.
use kontur.Prelude.{
  ℕ, ◌≡◌, Bool, true, not, Option, none, some, is_some, String, List, [], ◌∷◌, ◌++◌, any, ltb,
  is_empty, if◌then◌else◌,
}
use kontur.Intake.{UploadCandidate, Rejection, IntakeDecision, http_status_of, check_file}
use kontur.Intake.Batch.{verdict_of, seen_after, placed, batch_from}

-- `max(rejected, key=...)`: of the rejections with the greatest status the first.
abbrev worst_from : Rejection → List Rejection → Rejection
worst_from best [] = best
worst_from best (r ∷ rs) =
    worst_from (if ltb (http_status_of best.reason) (http_status_of r.reason) then r else best) rs

abbrev worst_of : List Rejection → Option Rejection
worst_of [] = none
worst_of (r ∷ rs) = some (worst_from r rs)

-- The rejection that the upload is answered with, where the antivirus has rejected some files itself.
unfoldable pub upload_refusal : List Rejection → IntakeDecision → Option Rejection
upload_refusal av_rejected d =
    if is_empty d.accepted then worst_of (d.rejected ++ av_rejected) else none

module _ (utf8_length : String → ℕ) (suffix_of : String → String)
    (members_of : List ℕ → Option (List (ℕ × ℕ))) where
  abbrev is_refused : UploadCandidate → Bool
  is_refused c = is_some (check_file utf8_length suffix_of members_of c)

  -- Nothing is taken exactly if every file is refused, and then all of them are.
  abbrev Refuses : IntakeDecision → List UploadCandidate → Type 0
  Refuses d items =
      (is_empty d.accepted ≡ not (any (λ c. not (is_refused c)) items))
      × (is_empty d.accepted ≡ true → is_empty d.rejected ≡ is_empty items)

  -- The decision after one file, by what its check has said.
  abbrev after_first : Option Rejection → UploadCandidate → List UploadCandidate → IntakeDecision
  after_first o item items =
      let v = verdict_of [] item.content_hash o in
      placed v item (batch_from utf8_length suffix_of members_of (seen_after v item []) items)
