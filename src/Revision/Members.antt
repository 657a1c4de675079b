-- ===== src/Revision/Members.antt =====
-- Where the documents of a chain come from.
use kontur.Prelude.{
  ℕ, ◌≡◌, inl, inr, true, false, Option, none, some, String, List, [], ◌∷◌, any, select, find, All,
  All-select, All-of-select, All-find, All-of_members, All-both, All-imp, All-append, ◌++◌, ◌==◌,
  if◌then◌else◌, Option-cases,
}
use kontur.Prelude.{String_eq}
use mathlib.Core.List.{Memᴰ}
use kontur.Prelude.Dict.{Dict}
use kontur.Domain.Models.{DocStage, DocumentRef}
use kontur.Revision.{DocStage_eq, ApprovalStatus_eq}
use kontur.Revision.Blanks.{
  find_root, group_all, append_at, groups_of, blank_components, Parents, enough, link_all,
  own_parents,
}
use kontur.Revision.Resolve.{eligible, of_anchor, identity_key, has_key}

module _ (P : DocumentRef → Type 0) where
  All-append_at :
      (root : String) (item : DocumentRef) (groups : Dict (List DocumentRef))
      → P item
      → All (All P) (groups_of groups)
      → All (All P) (groups_of (append_at root item groups))
  All-append_at root item [] one h = ((one, tt), tt)
  All-append_at root item ((key, group) ∷ groups) one h =
      elim (key == root)
        as (λ b. All (All P) (
          groups_of (
            if b
            then (key, group ++ item ∷ []) ∷ groups
            else (key, group) ∷ append_at root item groups))) [
              | true ↦ (All-append P group (item ∷ []) h.0 (one, tt), h.1)
              | false ↦ (h.0, All-append_at root item groups one h.1)
            ]

  All-group_all :
      (fuel : ℕ) (parent : Parents) (items : List DocumentRef) (groups : Dict (List DocumentRef))
      → All P items
      → All (All P) (groups_of groups)
      → All (All P) (groups_of (group_all fuel parent items groups))
  unfolding group_all
  All-group_all fuel parent [] groups each h = h
  All-group_all fuel parent (item ∷ items) groups each h =
      let (root, parent') = find_root fuel parent item.file_id in
      All-group_all fuel parent' items (append_at root item groups) each.1
        (All-append_at root item groups each.0 h)

  pub All-blank_components :
      (blanks : List DocumentRef) → All P blanks → All (All P) (blank_components blanks)
  unfolding blank_components
  All-blank_components blanks each =
      All-group_all (enough blanks) (link_all (enough blanks) (own_parents blanks []) blanks) blanks
        [] each tt

-- The documents of the stage, and with an anchor those of its chain.
abbrev pub chain_of : DocStage → Option DocumentRef → List DocumentRef → List DocumentRef
chain_of stage none documents = select (λ item. item.doc_stage == stage) documents
chain_of stage (some anchor) documents =
    of_anchor anchor (select (λ item. item.doc_stage == stage) documents)

module _ (P : DocumentRef → Type 0) where
  All-of_anchor :
      (anchor : DocumentRef) (docs : List DocumentRef) → All P docs → All P (of_anchor anchor docs)
  All-of_anchor anchor docs each = elim (Option-cases (identity_key anchor)) [
    | inl e ↦
        let blanks = blank_components (select (has_key none) docs) in
        let mine = λ (component : List DocumentRef).
          any (λ item. item.file_id == anchor.file_id) component in
        let parts =
          All-blank_components P (select (has_key none) docs)
            (All-of-select P (has_key none) docs each) in
        elim (Option-cases (find mine blanks)) [
          | inl e' ↦ rw (e, e') tt
          | inr (component, e') ↦ rw (e, e') (All-find (All P) mine blanks parts e')
        ]
    | inr (key, e) ↦ rw e (All-of-select P (has_key (some key)) docs each)
  ]

-- Of the documents that were given, of the stage, and not rejected.
abbrev pub IsCandidate : List DocumentRef → DocStage → DocumentRef → Type 0
IsCandidate documents stage doc =
    Memᴰ doc documents × (doc.doc_stage ≡ stage) × (eligible doc ≡ true)

chain_of-All :
    (P : DocumentRef → Type 0) (stage : DocStage) (anchor : Option DocumentRef)
    (documents : List DocumentRef)
    → All P (select (λ item. item.doc_stage == stage) documents)
    → All P (chain_of stage anchor documents)
chain_of-All P stage none documents h = h
chain_of-All P stage (some anchor) documents h = All-of_anchor P anchor _ h

pub candidates :
    (documents : List DocumentRef) (stage : DocStage) (anchor : Option DocumentRef)
    → All (IsCandidate documents stage) (select eligible (chain_of stage anchor documents))
candidates documents stage anchor =
    let of_stage = λ (item : DocumentRef). item.doc_stage == stage in
    let chain = chain_of stage anchor documents in
    let given =
      All-of-select (λ doc. Memᴰ doc documents) of_stage documents
        (All-of_members _ documents (λ doc m. m)) in
    let both =
      All-both (λ doc. Memᴰ doc documents) (λ doc. of_stage doc ≡ true) (select of_stage documents)
        given (All-select of_stage documents) in
    let among = chain_of-All _ stage anchor documents both in
    let kept =
      All-both _ (λ doc. eligible doc ≡ true) (select eligible chain)
        (All-of-select _ eligible chain among) (All-select eligible chain) in
    All-imp _ (λ doc h. (h.0.0, (DocStage_eq.equals_iff doc.doc_stage stage).0 h.0.1, h.1))
      (select eligible chain) kept
