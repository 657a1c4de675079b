-- ===== src/Intake.antt =====
-- backend/src/kontur/application/intake.py: which of the uploaded files are taken in.
-- Sizes are natural numbers, so the constructor of a candidate never raises; bytes are their numbers.
-- A detail is a value with what its text shows.
pub mod Batch
use kontur.Prelude.{
  ℕ, ◌+◌, ◌*◌, max, Bool, true, false, not, ◌&&◌, ◌||◌, Option, none, some, String, List, [], ◌∷◌,
  any, ltb, leb, nat_eq, ◌==◌, if◌then◌else◌,
}
use kontur.Prelude.{String_eq}
use Prim.Native.Char.{code}
use kontur.Prelude.Text.{strip, is_blank}

abbrev pub max_file_bytes : ℕ
max_file_bytes = 50 * 1024 * 1024

abbrev pub max_batch_bytes : ℕ
max_batch_bytes = 200 * 1024 * 1024

abbrev bomb_uncompressed_bytes : ℕ
bomb_uncompressed_bytes = 100 * 1024 * 1024

abbrev bomb_expand_ratio : ℕ
bomb_expand_ratio = 100

abbrev pub batch_scope : String
batch_scope = "*"

abbrev pub allowed_suffixes : List String
allowed_suffixes = ".pdf" ∷ ".docx" ∷ ".xml" ∷ ".zip" ∷ ".7z" ∷ ".rar" ∷ []

-- The table of signatures; a suffix that is no key has none.
abbrev magic_prefixes : String → List (List ℕ)
magic_prefixes suffix =
    if suffix == ".pdf"
    then (0x25 ∷ 0x50 ∷ 0x44 ∷ 0x46 ∷ 0x2d ∷ []) ∷ []
    else if suffix == ".docx"
    then (0x50 ∷ 0x4b ∷ 0x03 ∷ 0x04 ∷ []) ∷ []
    else if suffix == ".xml"
    then (0x3c ∷ []) ∷ (0xef ∷ 0xbb ∷ 0xbf ∷ 0x3c ∷ []) ∷ []
    else if suffix == ".zip"
    then (0x50 ∷ 0x4b ∷ 0x03 ∷ 0x04 ∷ [])
      ∷ (0x50 ∷ 0x4b ∷ 0x05 ∷ 0x06 ∷ [])
      ∷ (0x50 ∷ 0x4b ∷ 0x07 ∷ 0x08 ∷ [])
      ∷ []
    else if suffix == ".7z"
    then (0x37 ∷ 0x7a ∷ 0xbc ∷ 0xaf ∷ 0x27 ∷ 0x1c ∷ []) ∷ []
    else if suffix == ".rar"
    then (0x52 ∷ 0x61 ∷ 0x72 ∷ 0x21 ∷ 0x1a ∷ 0x07 ∷ 0x00 ∷ [])
      ∷ (0x52 ∷ 0x61 ∷ 0x72 ∷ 0x21 ∷ 0x1a ∷ 0x07 ∷ 0x01 ∷ 0x00 ∷ [])
      ∷ []
    else []

pub data RejectionReason : Type 0 where
  unsupported_format : RejectionReason
  corrupted_file : RejectionReason
  file_too_large : RejectionReason
  batch_limit_exceeded : RejectionReason
  antivirus_rejected : RejectionReason
  encrypted_file : RejectionReason
  processing_timeout : RejectionReason
  unsafe_filename : RejectionReason

-- `HTTP_STATUS`
abbrev pub http_status_of : RejectionReason → ℕ
http_status_of unsupported_format = 415
http_status_of corrupted_file = 422
http_status_of file_too_large = 413
http_status_of batch_limit_exceeded = 413
http_status_of antivirus_rejected = 422
http_status_of encrypted_file = 422
http_status_of processing_timeout = 504
http_status_of unsafe_filename = 422

pub record UploadCandidate : Type 0 where
  pub filename : String
  pub size_bytes : ℕ
  pub header : Option (List ℕ)
  pub content_hash : Option String

pub data Detail : Type 0 where
  unsafe_name : Detail
  suffix_not_supported : String → Detail
  file_without_bytes : Detail
  file_over_limit : ℕ → Detail
  signature_differs : String → Detail
  archive_bomb : Detail
  batch_over_limit : ℕ → Detail

pub record Rejection : Type 0 where
  pub filename : String
  pub reason : RejectionReason
  pub detail : Detail

pub record IntakeDecision : Type 0 where
  pub accepted : List UploadCandidate
  pub rejected : List Rejection
  pub duplicates : List UploadCandidate

abbrev worst : List Rejection → ℕ
worst [] = 0
worst (r ∷ rs) = max (http_status_of r.reason) (worst rs)

abbrev pub status_for : List Rejection → ℕ
status_for [] = 202
status_for (r ∷ rs) = worst (r ∷ rs)

-- The property of a decision.
unfoldable pub http_status : IntakeDecision → ℕ
http_status d = status_for d.rejected

abbrev is_control : ℕ → Bool
is_control c = leb c 0x1f || nat_eq c 0x7f

abbrev is_separator : ℕ → Bool
is_separator c = nat_eq c 0x5c || nat_eq c 0x2f

-- `pattern.search(s)` for a class of characters.
abbrev any_char : (ℕ → Bool) → String → Bool
any_char p String.[] = false
any_char p (String.◌∷◌ c s) = p (code c) || any_char p s

-- `s.startswith("..")`
abbrev starts_with_dots : String → Bool
starts_with_dots (String.◌∷◌ c (String.◌∷◌ d s)) = nat_eq (code c) 0x2e && nat_eq (code d) 0x2e
starts_with_dots s = false

-- `utf8_length` is the number of bytes of a text in UTF-8.
unfoldable pub filename_is_safe : (String → ℕ) → String → Bool
filename_is_safe utf8_length filename =
    if is_blank filename || not (filename == strip filename)
    then false
    else if any_char is_control filename || any_char is_separator filename
    then false
    else if filename == "." || filename == ".." || starts_with_dots filename
    then false
    else leb (utf8_length filename) 255

-- `header.startswith(prefix)`
abbrev starts_with : List ℕ → List ℕ → Bool
starts_with [] header = true
starts_with (p ∷ prefix) [] = false
starts_with (p ∷ prefix) (b ∷ header) = nat_eq p b && starts_with prefix header

unfoldable pub header_matches_suffix : String → Option (List ℕ) → Bool
header_matches_suffix suffix none = true
header_matches_suffix suffix (some header) = elim (magic_prefixes suffix) [
  | [] ↦ true
  | p ∷ ps ↦ any (λ prefix. starts_with prefix header) (p ∷ ps)
]

abbrev sum_of : {A : Type 0} → (A → ℕ) → List A → ℕ
sum_of f [] = 0
sum_of f (a ∷ as') = f a + sum_of f as'

-- The sizes of an archive's members, compressed and not; nothing is an archive that cannot be read. A
-- quotient is over the ratio if the product is.
abbrev expands_too_far : Option (List (ℕ × ℕ)) → Bool
expands_too_far none = false
expands_too_far (some members) =
    let compressed = sum_of (λ m. m.0) members in
    let uncompressed = sum_of (λ m. m.1) members in
    ltb bomb_uncompressed_bytes uncompressed
    || ltb 0 compressed && ltb (bomb_expand_ratio * compressed) uncompressed

unfoldable pub archive_looks_like_bomb : (List ℕ → Option (List (ℕ × ℕ))) → List ℕ → Bool
archive_looks_like_bomb members_of payload =
    if not (starts_with (0x50 ∷ 0x4b ∷ 0x03 ∷ 0x04 ∷ []) payload)
    then false
    else expands_too_far (members_of payload)

-- `suffix_of` is the suffix of a name in lower case, as pathlib has it, and `members_of` lists an
-- archive's members.
module _ (utf8_length : String → ℕ) (suffix_of : String → String)
    (members_of : List ℕ → Option (List (ℕ × ℕ))) where
  abbrev is_bomb : String → Option (List ℕ) → Bool
  is_bomb suffix none = false
  is_bomb suffix (some header) =
      (suffix == ".zip" || suffix == ".docx") && archive_looks_like_bomb members_of header

  abbrev refusal_of : String → RejectionReason → Detail → Option Rejection
  refusal_of filename reason detail =
      some (record { filename = filename; reason = reason; detail = detail })

  unfoldable pub check_file : UploadCandidate → Option Rejection
  check_file c =
      let suffix = suffix_of c.filename in
      let refusal = refusal_of c.filename in
      if not (filename_is_safe utf8_length c.filename)
      then refusal unsafe_filename unsafe_name
      else if not (any (λ s. s == suffix) allowed_suffixes)
      then refusal unsupported_format (suffix_not_supported suffix)
      else if nat_eq c.size_bytes 0
      then refusal corrupted_file file_without_bytes
      else if ltb max_file_bytes c.size_bytes
      then refusal file_too_large (file_over_limit c.size_bytes)
      else if not (header_matches_suffix suffix c.header)
      then refusal corrupted_file (signature_differs suffix)
      else if is_bomb suffix c.header
      then refusal corrupted_file archive_bomb
      else none
