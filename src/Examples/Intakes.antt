-- ===== src/Examples/Intakes.antt =====
-- Uploads as backend/src/kontur/application/intake.py takes them in.
use kontur.Prelude.{ℕ, suc, ◌≡◌, refl, Option, none, some, String, List, [], ◌∷◌}
use kontur.Prelude.Text.{strip, lstrip, rstrip, is_space}
use kontur.Intake.{
  UploadCandidate, check_file, filename_is_safe, header_matches_suffix, archive_looks_like_bomb,
  corrupted_file, file_without_bytes,
}
use kontur.Intake.Batch.{verdict, evaluate_batch}

abbrev utf8_length : String → ℕ
utf8_length String.[] = 0
utf8_length (String.◌∷◌ c s) = suc (utf8_length s)

-- The suffix of the names below.
abbrev suffix_of : String → String
suffix_of s = ".pdf"

abbrev members_of : List ℕ → Option (List (ℕ × ℕ))
members_of payload = none

abbrev plan : UploadCandidate
plan = record {
  filename = "plan.pdf";
  size_bytes = 2000;
  header = some (0x25 ∷ 0x50 ∷ 0x44 ∷ 0x46 ∷ 0x2d ∷ 0x31 ∷ []);
  content_hash = some "h1";
}

abbrev again : UploadCandidate
again = record plan { filename = "copy.pdf" }

abbrev nothing : UploadCandidate
nothing = record plan { size_bytes = 0 }

abbrev upload : List UploadCandidate
upload = plan ∷ again ∷ nothing ∷ []

-- The first is taken, the second repeats it, and the third is refused.
upload_runs : evaluate_batch utf8_length suffix_of members_of upload ≡ record {
  accepted = plan ∷ [];
  rejected =
      record { filename = "plan.pdf"; reason = corrupted_file; detail = file_without_bytes } ∷ [];
  duplicates = again ∷ [];
}
unfolding evaluate_batch verdict check_file filename_is_safe header_matches_suffix
    archive_looks_like_bomb strip lstrip rstrip is_space
upload_runs = refl
