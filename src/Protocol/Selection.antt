-- ===== src/Protocol/Selection.antt =====
-- Which rows of a section leave the service.
use kontur.Prelude.{
  ◌≡◌, ◌≢◌, ◌⊎◌, ◌∙◌, refl, sym, ap, inl, inr, true, false, Option, none, some, String, eq_iff, ok,
  if◌then◌else◌, >>=-eq-ok, ◌==◌, Bool-cases, arith,
}
use kontur.Prelude.{String_eq}
use mathlib.Core.Path.{subst}
use kontur.Prelude.Json.{Json, Items, Fields, nil, cons, get}
use kontur.Prelude.Text.{lacks_text}
use kontur.Protocol.Wire.{is_status, worded_text, is_allowed, clean_rows, clean_section}

module _ {Float : Type 0} where
  -- Every row is a card with the given status.
  abbrev pub HaveStatus : String → Items Float → Type 0
  HaveStatus status nil = Unit
  HaveStatus status (cons (Json.obj row) rows) =
      (get "finding_status" row ≡ some (Json.text status)) × HaveStatus status rows
  HaveStatus status (cons _ rows) = ⊥

  -- The second list holds the rows of the first that have the status, in order, and no others.
  abbrev pub AreSelected : String → Items Float → Items Float → Type 0
  AreSelected status nil out = out ≡ nil
  AreSelected status (cons (Json.obj row) rows) out =
      ((get "finding_status" row ≡ some (Json.text status))
        × ((rest : Items Float) × (out ≡ cons (Json.obj row) rest) × AreSelected status rows rest))
      ⊎ ((get "finding_status" row ≢ some (Json.text status)) × AreSelected status rows out)
  AreSelected status (cons _ rows) out = ⊥

  -- The rows of a section that may be missing.
  abbrev pub AreSelectedOf : String → Option (Json Float) → Items Float → Type 0
  AreSelectedOf status none out = out ≡ nil
  AreSelectedOf status (some (Json.arr rows)) out = AreSelected status rows out
  AreSelectedOf status (some _) out = ⊥

  pub AreSelected-HaveStatus :
      (status : String) (rows out : Items Float)
      → AreSelected status rows out
      → HaveStatus status out
  AreSelected-HaveStatus status nil out h = subst (HaveStatus status) (sym h) tt
  AreSelected-HaveStatus status (cons (Json.obj row) rows) out h = elim h [
    | inl (here, (rest, e, more)) ↦
        subst (HaveStatus status) (sym e) (here, AreSelected-HaveStatus status rows rest more)
    | inr (other, more) ↦ AreSelected-HaveStatus status rows out more
  ]
  AreSelected-HaveStatus status (cons _ rows) out h = absurd h

  pub AreSelectedOf-HaveStatus :
      (status : String) (v : Option (Json Float)) (out : Items Float)
      → AreSelectedOf status v out
      → HaveStatus status out
  AreSelectedOf-HaveStatus status none out h = subst (HaveStatus status) (sym h) tt
  AreSelectedOf-HaveStatus status (some (Json.arr rows)) out h =
      AreSelected-HaveStatus status rows out h
  AreSelectedOf-HaveStatus status (some _) out h = absurd h

  -- The test of the code, for a status that is not blank.
  is_status-worded :
      (status : String) (v : Option (Json Float))
      → is_status status (worded_text v) ≡ true
      → v ≡ some (Json.text status)
  is_status-worded status none h = cc
  is_status-worded status (some (Json.text t)) h = elim (Bool-cases (lacks_text t)) [
    | inl blank ↦ absurd (ground (arith, h, blank))
    | inr worded ↦
        let same : (t == status) ≡ true = ground (arith, h, worded) in
        ap (λ u. some (Json.text u)) ((eq_iff t status).0 same)
  ]
  is_status-worded status (some _) h = cc

  pub get-is_allowed :
      (status : String) (row : Fields Float)
      → lacks_text status ≡ false
      → get "finding_status" row ≡ some (Json.text status)
      → is_allowed status row ≡ true
  get-is_allowed status row worded h =
      ap (λ v. is_status status (worded_text v)) h
      ∙ ap (λ b. is_status status (if b then none else some status)) worded
      ∙ (eq_iff status status).1 refl

  clean_rows-AreSelected :
      (key status : String) (rows : Items Float) {out : Items Float}
      → lacks_text status ≡ false
      → clean_rows key status rows ≡ ok out
      → AreSelected status rows out
  unfolding clean_rows
  clean_rows-AreSelected key status nil worded h = ground (arith, h)
  clean_rows-AreSelected key status (cons (Json.obj row) rows) {out} worded h =
      let (rest, e, h') = >>=-eq-ok (clean_rows key status rows) _ h in
      let more = clean_rows-AreSelected key status rows {out = rest} worded e in
      elim (Bool-cases (is_allowed status row)) [
        | inl kept ↦ inl (
          is_status-worded status (get "finding_status" row) kept,
          (rest, ground (arith, h', kept), more),
        )
        | inr dropped ↦ inr (
          (λ here. ground (arith, dropped, get-is_allowed status row worded here)),
          subst (AreSelected status rows) (ground (arith, h', dropped)) more,
        )
      ]
  clean_rows-AreSelected key status (cons _ rows) worded h = cc

  pub clean_section-AreSelectedOf :
      (key status : String) (v : Option (Json Float)) {out : Items Float}
      → lacks_text status ≡ false
      → clean_section key status v ≡ ok out
      → AreSelectedOf status v out
  unfolding clean_section
  clean_section-AreSelectedOf key status none worded h = ground (arith, h)
  clean_section-AreSelectedOf key status (some (Json.arr rows)) worded h =
      clean_rows-AreSelected key status rows worded h
  clean_section-AreSelectedOf key status (some _) worded h = cc

  -- Cleaning keeps rows that are all allowed as they are.
  clean_rows_of_HaveStatus :
      (key status : String) (rows : Items Float)
      → lacks_text status ≡ false
      → HaveStatus status rows
      → clean_rows key status rows ≡ ok rows
  unfolding clean_rows
  clean_rows_of_HaveStatus key status nil worded h = refl
  clean_rows_of_HaveStatus key status (cons (Json.obj row) rows) worded h =
      let kept = get-is_allowed status row worded h.0 in
      rw (clean_rows_of_HaveStatus key status rows worded h.1)
        (ap (λ b. ok (if b then cons (Json.obj row) rows else rows)) kept)
  clean_rows_of_HaveStatus key status (cons _ rows) worded h = absurd h

  pub clean_section_of_HaveStatus :
      (key status : String) (rows : Items Float)
      → lacks_text status ≡ false
      → HaveStatus status rows
      → clean_section key status (some (Json.arr rows)) ≡ ok rows
  unfolding clean_section
  clean_section_of_HaveStatus key status rows worded h =
      clean_rows_of_HaveStatus key status rows worded h
