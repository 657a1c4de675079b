-- ===== src/Store/Kept.antt =====
-- What was stored is loaded: the inspector's queue and the groups of evidence.
use kontur.Prelude.{
  ◌≡◌, refl, sym, ap, ◌∙◌, false, none, some, is_some, String, eq_iff, List, [], ◌∷◌, ◌++◌,
  if◌then◌else◌, All-imp, All, ok, ◌==◌, arith, raise_if, >>=-eq-ok, ℕ, not,
}
use kontur.Prelude.{String_eq}
use mathlib.Core.List.{append-nil, append_assoc}
use kontur.Prelude.Floats.{Floats}
use kontur.Prelude.Json.{Json}
use kontur.Prelude.Dict.{Dict, lookup, insert, lookup-insert}
use kontur.Domain.Models.{Finding, EvidenceGroup}
use kontur.Domain.Models.Checks.{new_fragment, new_group}
use kontur.Outbox.Rows.{AllDiffer}
use kontur.Storage.Evidence.{Casts, array}
use kontur.Storage.Groups.{encode_group, decode_group}
use kontur.Storage.GroupTrip.{decode_group-encode}
use kontur.Storage.EvidenceTrip.{as_list_of-array}
use kontur.Store.{
  MemoryProcessStore, finding_key, bucket_of, values_of, load_findings, replace_findings, key_error,
}
use kontur.Store.Records.{save_evidence_groups, load_evidence_groups, decoded}

-- A key that is new stands last.
values_of-insert {ℓ} :
    {V : Type ℓ} (k : String) (v : V) (d : Dict V)
    → lookup k d ≡ none
    → values_of (insert k v d) ≡ values_of d ++ v ∷ []
unfolding lookup insert
values_of-insert k v [] h = refl
values_of-insert k v ((j, w) ∷ d) h = ground (arith, h, values_of-insert k v d)

module _ {Float : Type 0} where
  abbrev pub keys : List (Finding Float) → List String
  keys [] = []
  keys (f ∷ fs) = finding_key f ∷ keys fs

  abbrev AreNew : Dict (Finding Float) → List (Finding Float) → Type 0
  AreNew bucket = All (λ f. lookup (finding_key f) bucket ≡ none)

  AreNew-insert :
      (f : Finding Float) (bucket : Dict (Finding Float)) (fs : List (Finding Float))
      → All (λ k. (finding_key f == k) ≡ false) (keys fs)
      → AreNew bucket fs
      → AreNew (insert (finding_key f) f bucket) fs
  AreNew-insert f bucket [] differ new = tt
  AreNew-insert f bucket (g ∷ gs) differ new = (
    ground (arith, lookup-insert (finding_key f) (finding_key g) f bucket, differ.0, new.0),
    AreNew-insert f bucket gs differ.1 new.1,
  )

  values_of-bucket :
      (fs : List (Finding Float)) (bucket : Dict (Finding Float))
      → AllDiffer (keys fs)
      → AreNew bucket fs
      → values_of (bucket_of fs bucket) ≡ values_of bucket ++ fs
  unfolding bucket_of
  values_of-bucket [] bucket differ new = sym (append-nil (values_of bucket))
  values_of-bucket (f ∷ fs) bucket differ new =
      values_of-bucket fs (insert (finding_key f) f bucket) differ.1
        (AreNew-insert f bucket fs differ.0 new.1)
      ∙ ap (λ vs. vs ++ fs) (values_of-insert (finding_key f) f bucket new.0)
      ∙ append_assoc (values_of bucket) (f ∷ []) fs

  nil-AreNew : (fs : List (Finding Float)) → AreNew [] fs
  unfolding lookup
  nil-AreNew [] = tt
  nil-AreNew (f ∷ fs) = (refl, nil-AreNew fs)

  -- A queue that was replaced by findings with different keys is loaded as those findings, in their
  -- order, and the queue of another process is as it was.
  pub load_findings-replace :
      {Event Evidence : Type 0} (process_id other : String) (fs : List (Finding Float))
      (store : MemoryProcessStore Float Event Evidence)
      → AllDiffer (keys fs)
      → (process_id == other) ≡ false
      → (load_findings process_id (replace_findings process_id fs store) ≡ fs)
        × (load_findings other (replace_findings process_id fs store) ≡ load_findings other store)
  unfolding load_findings replace_findings
  load_findings-replace process_id other fs store differ e =
      let found = λ (k : String). lookup-insert process_id k (bucket_of fs []) store.findings in
      (
        rw (found process_id, (eq_iff process_id process_id).1 refl)
            (values_of-bucket fs [] differ (nil-AreNew fs)),
        rw (found other, e) refl,
      )

-- The constructors accept the group and its fragments.
abbrev pub IsValid : (F : Floats) → EvidenceGroup (F.Float) → Type 0
IsValid F g =
    (new_group g ≡ ok g)
    × All (λ f. new_fragment F f ≡ ok f) g.fragments
    × All (λ f. new_fragment F f ≡ ok f) g.prior_revision_fragments

module _ (F : Floats) (casts : Casts (F.Float)) {Event Evidence : Type 0}
    (dumps : Json (F.Float) → Evidence) (loads : Evidence → Json (F.Float)) where
  -- Groups of evidence that were saved for a process are loaded as they were, if their constructors
  -- accept them, reading a JSON text gives its value, and reading the text of a date gives the date.
  pub load_evidence_groups-save :
      ((n : ℕ) → casts.date_of (casts.date_text n) ≡ some n)
      → ((j : Json (F.Float)) → loads (dumps j) ≡ j)
      → (process_id : String) (groups : List (EvidenceGroup (F.Float)))
        (store : MemoryProcessStore (F.Float) Event Evidence)
        {after : MemoryProcessStore (F.Float) Event Evidence}
      → All (IsValid F) groups
      → save_evidence_groups F casts dumps loads process_id groups store ≡ ok after
      → load_evidence_groups F casts dumps loads process_id after ≡ ok groups
  unfolding save_evidence_groups load_evidence_groups
  load_evidence_groups-save dates texts process_id groups store {after} valid h =
      let raw = dumps (array (encode_group F casts) groups) in
      let (known, e, h') =
        >>=-eq-ok (raise_if (not (is_some (lookup process_id store.rows))) (key_error process_id))
          (λ _. ok (record store { evidence = insert process_id raw store.evidence })) h in
      let at_after : record store { evidence = insert process_id raw store.evidence } ≡ after =
        ground (arith, h') in
      let found : lookup process_id after.evidence ≡ some raw =
        ap (λ t. lookup process_id t.evidence) (sym at_after)
        ∙ lookup-insert process_id process_id raw store.evidence
        ∙ ap (λ b. if b then some raw else lookup process_id store.evidence)
            ((eq_iff process_id process_id).1 refl) in
      ap (decoded F casts loads) found
      ∙ rw (texts (array (encode_group F casts) groups)) (
          as_list_of-array (F.Float) (encode_group F casts) (decode_group F casts) groups
            (All-imp _ (λ g v. decode_group-encode F casts dates g v.0 v.1 v.2) groups valid))
