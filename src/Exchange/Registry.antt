-- ===== src/Exchange/Registry.antt =====
-- What the store promises of finalized protocols: a register in which a text is never replaced by
-- another.
use kontur.Prelude.{
  ◌≡◌, refl, sym, ap, ◌∙◌, ◌⊎◌, inl, inr, false, Option, none, some, String, eq_iff, ◌==◌,
  if◌then◌else◌, Bool-cases, arith,
}
use kontur.Prelude.{String_eq}
use mathlib.Core.Path.{subst, fun_ext}
use kontur.Prelude.Json.{Fields}
use kontur.Prelude.Dict.{lookup, insert, lookup-insert}
use kontur.Store.{MemoryProcessStore, save_finding, replace_findings, clear}
use kontur.Store.Records.{save_audit_event}
use kontur.Store.Materialize.{differs}
use kontur.Store.Materialized.{materialize_finalized-whole, save_lem}
use kontur.Exchange.{
  Step, saves, saves_finding, replaces_findings, materializes, relays, audits, saves_evidence,
  clears,
}

-- The texts by the identifiers of their protocols.
abbrev pub Registry : Type 0
Registry = String → Option String

abbrev pub publish : String → String → Registry → Registry
publish protocol_id text registry id = if protocol_id == id then some text else registry id

-- What an operation may do to the register.
pub data Change : Type 0 where
  unchanged publication clearing : Change

-- A change of the register: none, a text at a place that is free or has it already, or a new start.
pub data SpecStep (registry : Registry) : Change → Registry → Type 0 where
  keeps : SpecStep registry unchanged registry
  publishes :
      (protocol_id text : String)
      → (registry protocol_id ≡ none) ⊎ (registry protocol_id ≡ some text)
      → SpecStep registry publication (publish protocol_id text registry)
  forgets : SpecStep registry clearing (λ id. none)

module _ {Float : Type 0} (canonical : Fields Float → String) where
  abbrev protocol_text : Option (Fields Float) → Option String
  protocol_text none = none
  protocol_text (some d) = some (canonical d)

  free_or_same :
      (stored : Option (Fields Float)) (encoded : Fields Float)
      → differs canonical stored encoded ≡ false
      → (protocol_text stored ≡ none) ⊎ (protocol_text stored ≡ some (canonical encoded))
  free_or_same none encoded h = inl refl
  free_or_same (some d) encoded h =
      inr (ground (arith, h, eq_iff (canonical d) (canonical encoded)))

module _ {Float Event Evidence : Type 0} (canonical : Fields Float → String) where
  -- The register that a store is.
  abbrev pub view : MemoryProcessStore Float Event Evidence → Registry
  view store id = protocol_text canonical (lookup id store.protocols)

  protocol_text-insert :
      (protocol_id id : String) (encoded : Fields Float)
      (store : MemoryProcessStore Float Event Evidence)
      → protocol_text canonical (lookup id (insert protocol_id encoded store.protocols))
        ≡ publish protocol_id (canonical encoded) (view store) id
  protocol_text-insert protocol_id id encoded store = elim (Bool-cases (protocol_id == id)) [
    | inl e ↦ rw (lookup-insert protocol_id id encoded store.protocols, e) refl
    | inr e ↦ rw (lookup-insert protocol_id id encoded store.protocols, e) refl
  ]

module _ {Float Event Evidence : Type 0} (canonical : Fields Float → String)
    (clone : Fields Float → Fields Float) (sha256 : String → String) where
  -- Materializing publishes, clearing forgets, and everything else leaves the register.
  abbrev pub change_of :
      {store after : MemoryProcessStore Float Event Evidence}
      → Step canonical clone sha256 store after
      → Change
  change_of (materializes s payload now h) = publication
  change_of clears = clearing
  change_of _ = unchanged

  -- Every operation of the store, and every turn of its relay, is a step of the register: materializing
  -- publishes a text at a place that is free or has that text already, clearing the store empties the
  -- register, and every other operation leaves it as it is.
  pub view-SpecStep :
      {store after : MemoryProcessStore Float Event Evidence}
      → (step : Step canonical clone sha256 store after)
      → SpecStep (view canonical store) (change_of step) (view canonical after)
  unfolding save_finding replace_findings save_audit_event clear lookup
  view-SpecStep {store} (saves s h) =
      subst (λ t. SpecStep (view canonical store) unchanged (view canonical t))
        (sym (save_lem s store h)) keeps
  view-SpecStep (saves_finding process_id f) = keeps
  view-SpecStep (replaces_findings process_id fs) = keeps
  view-SpecStep {store} (materializes s payload now h) =
      let (protocol_id, sent, at_id, final, cut, same, named, named', at_after) =
        materialize_finalized-whole canonical clone _ s payload now store h in
      subst (SpecStep (view canonical store) publication)
        (fun_ext (λ id. sym (protocol_text-insert canonical protocol_id id (clone sent) store))
          ∙ ap (view canonical) (sym at_after))
        (publishes protocol_id (canonical (clone sent))
          (free_or_same canonical (lookup protocol_id store.protocols) (clone sent) same))
  view-SpecStep (relays publisher deliver now) = keeps
  view-SpecStep (audits process_id event) = keeps
  view-SpecStep (saves_evidence process_id raw h) = keeps
  view-SpecStep clears = forgets
