-- ===== src/Revision/Isolation.antt =====
-- A chain with a code is resolved from its own documents alone, whatever the other chains are.
use kontur.Prelude.{
  inl, inr, ◌≡◌, refl, sym, ap, ◌∙◌, ◌↔◌, Bool, true, false, Option, none, some, String, eq_iff,
  List, [], ◌∷◌, ◌++◌, map, select, find, ◌==◌, if◌then◌else◌, Bool-cases, Option-cases, arith,
}
use kontur.Prelude.{String_eq}
use mathlib.Core.List.{append-nil, append_assoc}
use kontur.Domain.Models.{DocStage, DocumentRef}
use kontur.Revision.{DocStage_eq, EtalonPolicy}
use kontur.Revision.Names.{NameRules}
use kontur.Revision.Resolve.{Key, identity_key, same_key, has_key}
use kontur.Revision.Heads.{
  IdentityHead, identity_head, append_key, append_keyed, keyed_groups, blank_filename_groups,
  resolve_heads_by_identity,
}

same_key_iff : (j k : Key) → (same_key j k ≡ true) ↔ (j ≡ k)
same_key_iff (a, b, c) (a', b', c') = ground (arith, eq_iff a a', eq_iff b b', eq_iff c c')

differs_too : (other key k : Key) → other ≡ k → same_key other key ≡ false → same_key key k ≡ false
differs_too other key k same e = elim (Bool-cases (same_key key k)) [
  | inl e' ↦
      let again : same_key other key ≡ true =
        (same_key_iff other key).1 (same ∙ sym ((same_key_iff key k).0 e')) in
      absurd (cc (e, again))
  | inr e' ↦ e'
]

abbrev at_key : Key → Key × List DocumentRef → Bool
at_key k group = same_key group.0 k

-- A group that may be there, with more documents.
abbrev grow :
    Key → Option (Key × List DocumentRef) → List DocumentRef → Option (Key × List DocumentRef)
grow k none [] = none
grow k none (doc ∷ docs) = some (k, doc ∷ docs)
grow k (some (j, group)) docs = some (j, group ++ docs)

grow-nil : (k : Key) (o : Option (Key × List DocumentRef)) → grow k o [] ≡ o
grow-nil k none = refl
grow-nil k (some (j, group)) = ap (λ g. some (j, g)) (append-nil group)

append_key-find :
    (k key : Key) (item : DocumentRef) (groups : List (Key × List DocumentRef))
    → find (at_key k) (append_key key item groups)
      ≡ grow k (find (at_key k) groups) (if same_key key k then item ∷ [] else [])
append_key-find k key item [] = ground (arith, same_key_iff key k)
append_key-find k key item ((other, group) ∷ groups) = elim (Bool-cases (same_key other key)) [
  | inl e ↦
      let same : other ≡ key = (same_key_iff other key).0 e in
      elim (Bool-cases (same_key key k)) [
        | inl e' ↦ rw (same, (same_key_iff key key).1 refl, e') refl
        | inr e' ↦
            rw (same, (same_key_iff key key).1 refl, e') (sym (grow-nil k (find (at_key k) groups)))
      ]
  | inr e ↦ elim (Bool-cases (same_key other k)) [
    | inl e' ↦
        let same : other ≡ k = (same_key_iff other k).0 e' in
        let foreign : same_key key k ≡ false = differs_too other key k same e in
        rw (e, e', foreign, append-nil group) refl
    | inr e' ↦ rw (e, e') (append_key-find k key item groups)
  ]
]

grow-grow :
    (k : Key) (o : Option (Key × List DocumentRef)) (docs docs' : List DocumentRef)
    → grow k (grow k o docs) docs' ≡ grow k o (docs ++ docs')
grow-grow k none [] docs' = refl
grow-grow k none (doc ∷ docs) docs' = refl
grow-grow k (some (j, group)) docs docs' = ap (λ g. some (j, g)) (append_assoc group docs docs')

select-cons :
    (p : DocumentRef → Bool) (item : DocumentRef) (items : List DocumentRef)
    → (if p item then item ∷ [] else []) ++ select p items ≡ select p (item ∷ items)
select-cons p item items = ground arith

append_keyed-find :
    (k : Key) (item : DocumentRef) (groups : List (Key × List DocumentRef))
    → find (at_key k) (append_keyed (identity_key item) item groups)
      ≡ grow k (find (at_key k) groups) (if has_key (some k) item then item ∷ [] else [])
append_keyed-find k item groups = elim (Option-cases (identity_key item)) [
  | inl e ↦ rw e (sym (grow-nil k (find (at_key k) groups)))
  | inr (key, e) ↦ rw e (append_key-find k key item groups)
]

keyed_groups-find :
    (k : Key) (docs : List DocumentRef) (groups : List (Key × List DocumentRef))
    → find (at_key k) (keyed_groups docs groups)
      ≡ grow k (find (at_key k) groups) (select (has_key (some k)) docs)
unfolding keyed_groups
keyed_groups-find k [] groups = sym (grow-nil k (find (at_key k) groups))
keyed_groups-find k (item ∷ items) groups =
    keyed_groups-find k items (append_keyed (identity_key item) item groups)
    ∙ ap (λ o. grow k o (select (has_key (some k)) items)) (append_keyed-find k item groups)
    ∙ grow-grow k (find (at_key k) groups) (if has_key (some k) item then item ∷ [] else [])
        (select (has_key (some k)) items)
    ∙ ap (grow k (find (at_key k) groups)) (select-cons (has_key (some k)) item items)

-- The one head of a code.
abbrev pub is_head_of : Key → IdentityHead → Bool
is_head_of k head = elim head.key [ none ↦ false | some j ↦ same_key j k ]

module _ (rules : NameRules) (policy : EtalonPolicy) (stage : DocStage)
    (selected : List String) where
  abbrev pub head_of : Key → List DocumentRef → Option IdentityHead
  head_of k [] = none
  head_of k (doc ∷ docs) = some (identity_head rules policy stage selected (some k) (doc ∷ docs))

  -- The head of a group that is there, or one among the others.
  abbrev head_from : Option IdentityHead → Option (Key × List DocumentRef) → Option IdentityHead
  head_from other none = other
  head_from other (some (j, group)) =
      some (identity_head rules policy stage selected (some j) group)

  find-keyed_heads :
      (k : Key) (groups : List (Key × List DocumentRef)) (others : List IdentityHead)
      → find (is_head_of k) (
          map (λ group. identity_head rules policy stage selected (some group.0) group.1) groups
          ++ others)
        ≡ head_from (find (is_head_of k) others) (find (at_key k) groups)
  unfolding identity_head
  find-keyed_heads k [] others = refl
  find-keyed_heads k ((j, group) ∷ groups) others = ground (arith, find-keyed_heads k groups others)

  find-blank_heads :
      (k : Key) (groups : List (List DocumentRef))
      → find (is_head_of k) (map (identity_head rules policy stage selected none) groups) ≡ none
  unfolding identity_head
  find-blank_heads k [] = refl
  find-blank_heads k (group ∷ groups) = find-blank_heads k groups

  by_group :
      (k : Key) (docs : List DocumentRef) → head_from none (grow k none docs) ≡ head_of k docs
  by_group k [] = refl
  by_group k (doc ∷ docs) = refl

  -- A code of the stage has one head if the package has a document of it, and that is what its own
  -- documents alone resolve to: neither another chain's documents nor its conflicts have a part in it.
  pub heads_are_isolated :
      (documents : List DocumentRef) (k : Key)
      → find (is_head_of k) (resolve_heads_by_identity rules policy documents stage selected)
        ≡ head_of k (select (has_key (some k)) (select (λ item. item.doc_stage == stage) documents))
  unfolding resolve_heads_by_identity
  heads_are_isolated documents k =
      let docs = select (λ (item : DocumentRef). item.doc_stage == stage) documents in
      let blanks = blank_filename_groups rules (select (has_key none) docs) stage in
      find-keyed_heads k (keyed_groups docs []) _
      ∙ ap (λ o. head_from o (find (at_key k) (keyed_groups docs []))) (find-blank_heads k blanks)
      ∙ ap (head_from none) (keyed_groups-find k docs [])
      ∙ by_group k (select (has_key (some k)) docs)
