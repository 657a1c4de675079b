-- ===== src/Revision/Heads.antt =====
-- `resolve_heads_by_identity`: every chain of a stage for itself.
use kontur.Prelude.{
  Bool, true, false, not, ◌&&◌, ◌||◌, Option, none, some, String, List, [], ◌∷◌, ◌++◌, map, length,
  any, all, select, Result, ok, err, ◌==◌, elem, ltb, if◌then◌else◌,
}
use kontur.Prelude.{String_eq}
use kontur.Prelude.Text.{is_blank, lacks_text}
use kontur.Prelude.Dict.{Dict}
use kontur.Domain.Models.{DocStage, DocumentRef, id}
use kontur.Revision.{
  DocStage_eq, RevisionConflict, of_filenames, RevisionResolution, EtalonPolicy,
  clarification_required, conflict,
}
use kontur.Revision.Blanks.{blank_components, groups_of, append_at}
use kontur.Revision.Names.{NameRules, volume_key, chain_by_filename}
use kontur.Revision.Resolve.{Key, identity_key, same_key, has_key, unresolved, resolve_revision}

pub record IdentityHead : Type 0 where
  pub key : Option Key
  pub file_ids : List String
  pub resolution : RevisionResolution

-- `not (item.predecessor_file_id or item.successor_file_id)`, for one of the two
abbrev lacks_link : Option String → Bool
lacks_link none = true
lacks_link (some s) = is_blank s

abbrev is_id : DocStage → Bool
is_id stage = stage == id

-- `groups.setdefault(key, []).append(item)`
abbrev pub append_key :
    Key → DocumentRef → List (Key × List DocumentRef) → List (Key × List DocumentRef)
append_key key item [] = (key, item ∷ []) ∷ []
append_key key item ((other, group) ∷ groups) =
    let rest = append_key key item groups in
    if same_key other key then (other, group ++ item ∷ []) ∷ groups else (other, group) ∷ rest

abbrev pub append_keyed :
    Option Key → DocumentRef → List (Key × List DocumentRef) → List (Key × List DocumentRef)
append_keyed none item groups = groups
append_keyed (some key) item groups = append_key key item groups

unfoldable pub keyed_groups :
    List DocumentRef → List (Key × List DocumentRef) → List (Key × List DocumentRef)
unfolding identity_key
keyed_groups [] groups = groups
keyed_groups (item ∷ items) groups =
    keyed_groups items (append_keyed (identity_key item) item groups)

module _ (rules : NameRules) where
  abbrev conflict_of : Result String (List DocumentRef) → Option String
  conflict_of (ok chain) = none
  conflict_of (err text) = some text

  -- `len({_volume_key(item.source_name) for item in group}) == 1`, and the key is not empty
  abbrev one_volume : List DocumentRef → Bool
  one_volume [] = false
  one_volume (doc ∷ docs) =
      let key = volume_key rules doc.source_name in
      all (λ item. volume_key rules item.source_name == key) docs && not (is_blank key)

  unfoldable pub filename_group_conflict : List DocumentRef → DocStage → Option String
  unfolding volume_key chain_by_filename
  filename_group_conflict group stage =
      if is_id stage || ltb (length group) 2
      then none
      else if any (λ item. lacks_text item.source_name) group
      then none
      else if not (one_volume group)
      then none
      else if any
          (λ item. not (lacks_link item.predecessor_file_id && lacks_link item.successor_file_id))
          group
      then none
      else conflict_of (chain_by_filename rules group)

  -- A group of one document whose file has a name.
  abbrev is_loose : List DocumentRef → Bool
  is_loose (doc ∷ []) = not (lacks_text doc.source_name)
  is_loose _ = false

  abbrev first_docs : List (List DocumentRef) → List DocumentRef
  first_docs [] = []
  first_docs ([] ∷ groups) = first_docs groups
  first_docs ((doc ∷ _) ∷ groups) = doc ∷ first_docs groups

  -- The documents whose name gives no volume, each for itself, and the clusters of the others.
  abbrev alone : List DocumentRef → List (List DocumentRef)
  alone [] = []
  alone (doc ∷ docs) =
      let rest = alone docs in
      if is_blank (volume_key rules doc.source_name) then (doc ∷ []) ∷ rest else rest

  abbrev clusters : List DocumentRef → Dict (List DocumentRef) → Dict (List DocumentRef)
  clusters [] groups = groups
  clusters (doc ∷ docs) groups =
      let key = volume_key rules doc.source_name in
      clusters docs (if is_blank key then groups else append_at key doc groups)

  -- A cluster as a chain, where its names tell one.
  abbrev kept_cluster : List DocumentRef → Result String (List DocumentRef) → List DocumentRef
  kept_cluster group (err text) = group
  kept_cluster group (ok chain) = if ltb (length group) 2 then group else chain

  unfoldable pub blank_filename_groups : List DocumentRef → DocStage → List (List DocumentRef)
  unfolding volume_key chain_by_filename
  blank_filename_groups blanks stage =
      let components = blank_components blanks in
      let loose = first_docs (select is_loose components) in
      if is_id stage
      then components
      else select (λ group. not (is_loose group)) components
        ++ (alone loose
            ++ map (λ group. kept_cluster group (chain_by_filename rules group))
                (groups_of (clusters loose [])))

  abbrev resolved_alone :
      Option String → Result RevisionConflict RevisionResolution → RevisionResolution
  resolved_alone (some text) resolved_to =
      unresolved clarification_required (conflict (of_filenames text))
  resolved_alone none (ok r) = r
  resolved_alone none (err e) = unresolved clarification_required (conflict e)

  -- A group of documents, with what is resolved of it alone.
  unfoldable pub identity_head :
      EtalonPolicy → DocStage → List String → Option Key → List DocumentRef → IdentityHead
  unfolding filename_group_conflict resolve_revision
  identity_head policy stage selected key group = record {
    key = key;
    file_ids = map (λ item. item.file_id) group;
    resolution = resolved_alone (filename_group_conflict group stage) (
        resolve_revision policy group stage none
          (select (λ file_id. elem file_id selected) (map (λ item. item.file_id) group)));
  }

  unfoldable pub resolve_heads_by_identity :
      EtalonPolicy → List DocumentRef → DocStage → List String → List IdentityHead
  unfolding identity_head keyed_groups blank_filename_groups
  resolve_heads_by_identity policy documents stage selected =
      let stage_docs = select (λ item. item.doc_stage == stage) documents in
      map (λ group. identity_head policy stage selected (some group.0) group.1)
        (keyed_groups stage_docs [])
      ++ map (identity_head policy stage selected none)
          (blank_filename_groups (select (has_key none) stage_docs) stage)
