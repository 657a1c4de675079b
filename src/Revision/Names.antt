-- ===== src/Revision/Names.antt =====
-- The chain of revisions that the names of files tell, where the documents have no code.
use kontur.Prelude.{
  ℕ, Bool, true, false, not, ◌&&◌, ◌||◌, Option, none, some, String, List, [], ◌∷◌, map, is_empty,
  any, Result, ok, err, ◌>>=◌, ◌>>◌, raise_if, ◌==◌, ltb, nat_eq, if◌then◌else◌,
}
use kontur.Prelude.{String_eq}
use Prim.Native.Nat.{ℕ}
use Prim.Native.Char.{code}
use kontur.Prelude.Text.{lacks_text, strip}
use kontur.Domain.Models.{DocumentRef}
use kontur.Revision.{DocStage_eq}

-- What the code asks of the library `re` and of `str`: a text without a copy's number at its end, a
-- text with its marks of revisions blanked, its letters and digits in lower case, its marks (whether
-- each is of a change, and its number), and the number that a text of digits reads.
pub record NameRules : Type 0 where
  pub without_copy : String → String
  pub without_marks : String → String
  pub letters : String → String
  pub marks : String → List (Bool × Option ℕ)
  pub number : String → Option ℕ

abbrev has_char : ℕ → String → Bool
has_char n String.[] = false
has_char n (String.◌∷◌ c s) = nat_eq (code c) n || has_char n s

-- `rsplit(c, 1)[-1]`
abbrev after_last : ℕ → String → String
after_last n String.[] = ""
after_last n (String.◌∷◌ c s) =
    let rest = after_last n s in
    if has_char n s then rest else if nat_eq (code c) n then s else String.◌∷◌ c s

-- `rsplit(c, 1)[0]`
abbrev before_last : ℕ → String → String
before_last n String.[] = ""
before_last n (String.◌∷◌ c s) =
    let rest = before_last n s in
    if has_char n s then String.◌∷◌ c rest else if nat_eq (code c) n then "" else String.◌∷◌ c s

-- `replace("\\", "/")`
abbrev with_slashes : String → String
with_slashes String.[] = ""
with_slashes (String.◌∷◌ c s) =
    let rest = with_slashes s in
    if nat_eq (code c) 92 then String.◌∷◌ "/" rest else String.◌∷◌ c rest

unfoldable pub stem : String → String
stem source_name = before_last 46 (after_last 47 (with_slashes source_name))

pub data MarkKind : Type 0 where
  change correction stamp mixed no_mark : MarkKind

pub record NameMark : Type 0 where
  pub kind : MarkKind
  pub number : Option ℕ

-- The marks that are not about the order of revisions: `kind` is a text of the source, and every text
-- but the two that the code names is taken for a correction.
abbrev kind_of_text : String → MarkKind
kind_of_text text = if text == "change" then change else correction

abbrev pub is_kind : MarkKind → NameMark → Bool
is_kind k mark = same k mark.kind
  where
    same : MarkKind → MarkKind → Bool
    same change change = true
    same correction correction = true
    same stamp stamp = true
    same mixed mixed = true
    same no_mark no_mark = true
    same _ _ = false

abbrev first_number : List (Bool × Option ℕ) → Option ℕ
first_number [] = none
first_number ((_, none) ∷ found) = first_number found
first_number ((_, some n) ∷ found) = some n

abbrev mark_of : String → List (Bool × Option ℕ) → NameMark
mark_of source_name found =
    let changes = any (λ item. item.0) found in
    let corrections = any (λ item. not item.0) found in
    if changes && corrections
    then record { kind = mixed; number = none }
    else if is_empty found
    then record { kind = no_mark; number = if lacks_text source_name then none else some 0 }
    else record { kind = if changes then change else correction; number = first_number found }

module _ (rules : NameRules) where
  unfoldable pub volume_key : String → String
  unfolding stem
  volume_key source_name =
      rules.letters (rules.without_marks (rules.without_copy (stem source_name)))

  unfoldable pub name_mark : DocumentRef → NameMark
  unfolding stem
  name_mark doc = elim (rules.number (strip doc.revision)) [
    | some n ↦ record { kind = kind_of_text doc.revision_kind; number = some n }
    | none ↦ mark_of doc.source_name (rules.marks (rules.without_copy (stem doc.source_name)))
  ]

  -- `by_number`, in the order of the numbers.
  abbrev put_number : ℕ → DocumentRef → List (ℕ × DocumentRef) → List (ℕ × DocumentRef)
  put_number n doc [] = (n, doc) ∷ []
  put_number n doc ((m, d) ∷ items) =
      let rest = put_number n doc items in
      if nat_eq n m
      then (n, doc) ∷ items
      else if ltb n m
      then (n, doc) ∷ (m, d) ∷ items
      else (m, d) ∷ rest

  -- Another file with the number.
  abbrev has_other_file : ℕ → DocumentRef → List (ℕ × DocumentRef) → Bool
  has_other_file n doc = any (λ item. nat_eq item.0 n && not (item.1.file_hash == doc.file_hash))

  abbrev or_unread : Option ℕ → Result String ℕ
  or_unread none = err "номер редакции в имени не прочитан"
  or_unread (some n) = ok n

  unfoldable pub by_number :
      List DocumentRef → List (ℕ × DocumentRef) → Result String (List (ℕ × DocumentRef))
  unfolding name_mark
  by_number [] items = ok items
  by_number (doc ∷ docs) items = do
    n ← or_unread (name_mark doc).number
    raise_if (has_other_file n doc items) "один номер редакции у разных файлов"
    by_number docs (put_number n doc items)

  abbrev next_id : List (ℕ × DocumentRef) → Option String
  next_id [] = none
  next_id ((_, doc) ∷ _) = some doc.file_id

  unfoldable pub linked_chain : Option String → List (ℕ × DocumentRef) → List DocumentRef
  linked_chain before [] = []
  linked_chain before ((_, doc) ∷ items) =
      record doc { predecessor_file_id = before; successor_file_id = next_id items }
      ∷ linked_chain (some doc.file_id) items

  -- The linked_chain chain, or the conflict, for which the code returns the group as it is.
  unfoldable pub chain_by_filename : List DocumentRef → Result String (List DocumentRef)
  unfolding name_mark by_number linked_chain
  chain_by_filename group =
      let found = map name_mark group in
      do
        raise_if (any (is_kind mixed) found)
            "в имени смешаны изм и кор, порядок редакции не выбирается"
        raise_if
            (any (is_kind change) found
              && (any (is_kind correction) found || any (is_kind stamp) found))
            "изм и кор не упорядочиваются между собой"
        items ← by_number group []
        ok (linked_chain none items)
