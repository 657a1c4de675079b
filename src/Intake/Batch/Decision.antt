-- ===== src/Intake/Batch/Decision.antt =====
-- What the decision on an upload does with each file.
use kontur.Prelude.{
  ℕ, ◌+◌, ◌≤◌, ◌<◌, ◌≡◌, true, false, ◌||◌, Option, none, some, String, List, [], ◌∷◌, any, ◌==◌,
  length, All, arith,
}
use kontur.Prelude.{String_eq}
use kontur.Outbox.Rows.{AllDiffer}
use kontur.Intake.{
  UploadCandidate, Rejection, IntakeDecision, max_file_bytes, allowed_suffixes, filename_is_safe,
  check_file,
}
use kontur.Intake.Batch.{has, Verdict, refused, repeated, taken, with_hash, total}

abbrev pub hashes : List UploadCandidate → List String
hashes [] = []
hashes (c ∷ cs) = with_hash c.content_hash (hashes cs)

-- Each file stands in one list, and those that are not refused are no larger than all.
abbrev Shares : IntakeDecision → List UploadCandidate → Type 0
Shares d items =
    (length d.accepted + (length d.rejected + length d.duplicates) ≡ length items)
    × (total d.accepted + total d.duplicates ≤ total items)

-- The file has a hash, which is among the given ones or that of a file taken.
abbrev IsKnown : List String → List UploadCandidate → UploadCandidate → Type 0
IsKnown seen accepted c =
    (hash : String) × (c.content_hash ≡ some hash)
    × ((has seen hash || has (hashes accepted) hash) ≡ true)

module _ (utf8_length : String → ℕ) (suffix_of : String → String)
    (members_of : List ℕ → Option (List (ℕ × ℕ))) where
  abbrev check : UploadCandidate → Option Rejection
  check = check_file utf8_length suffix_of members_of

  -- A file that is taken passes every check on the name, the suffix and the size.
  check_file-none :
      (c : UploadCandidate)
      → check_file utf8_length suffix_of members_of c ≡ none
      → (filename_is_safe utf8_length c.filename ≡ true)
        × (any (λ s. s == suffix_of c.filename) allowed_suffixes ≡ true)
        × (0 < c.size_bytes)
        × (c.size_bytes ≤ max_file_bytes)
  unfolding check_file
  check_file-none c h = ground (arith, h)

  abbrev Fits : List String → UploadCandidate → Verdict → Type 0
  Fits seen item (refused problem) = check item ≡ some problem
  Fits seen item repeated =
      (hash : String) × (item.content_hash ≡ some hash) × (has seen hash ≡ true)
  Fits seen item taken =
      (check item ≡ none) × All (λ k. has seen k ≡ false) (with_hash item.content_hash [])

  -- What is taken passes the checks and has new and different hashes, and what is a duplicate has one
  -- that is known.
  abbrev IsSettled : List String → IntakeDecision → Type 0
  IsSettled seen d =
      All (λ c. check c ≡ none) d.accepted
      × All (λ k. has seen k ≡ false) (hashes d.accepted)
      × AllDiffer (hashes d.accepted)
      × All (IsKnown seen d.accepted) d.duplicates
