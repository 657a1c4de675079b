-- ===== src/Store/Materialized.antt =====
-- What materializing a finalized protocol does to the store.
use kontur.Prelude.{
  ℕ, ◌+◌, ◌≤◌, ◌<◌, max, ◌≡◌, refl, ap, ◌⊎◌, inl, inr, true, false, some, String, [], ◌∷◌, any, All,
  ok, is_ok, raise_if, >>=-eq-ok, ◌==◌, Bool-cases, arith,
}
use kontur.Prelude.{String_eq, or_raise, raised_as}
use kontur.Prelude.Json.{Fields, get}
use kontur.Prelude.Dict.{Dict, lookup, insert}
use kontur.Domain.Status.{ProcessState_eq, finalized}
use kontur.Protocol.Wire.{protocol_for_rin}
use Prim.Native.String.{◌++◌ as concat}
use kontur.Prelude.Text.{lacks_text}
use kontur.Store.{
  ProcessSnapshot, required, payload_error, validate_snapshot, reject_unsafe_protocol_payload,
  outbox_event_id, is_this_text, version_of, max_protocol_version, MemoryProcessStore,
  next_protocol_version, conflict, save,
}
use kontur.Store.Materialize.{
  put_item, new_item, differs, is_taken, store_finalized, materialize_finalized,
}

abbrev pub IsBelow : {Float : Type 0} → String → ℕ → String × Fields Float → Type 0
IsBelow object_id n row =
    (is_this_text object_id (get "object_id" row.1) ≡ false)
    ⊎ (version_of (get "version" row.1) < n)

IsBelow-weaken :
    {Float : Type 0} (object_id : String) (m n : ℕ) (rows : Dict (Fields Float))
    → m ≤ n
    → All (IsBelow object_id m) rows
    → All (IsBelow object_id n) rows
IsBelow-weaken object_id m n [] h hs = tt
IsBelow-weaken object_id m n (row ∷ rows) h (one, hs) = (
  elim one [ inl other ↦ inl other | inr below ↦ inr (omega (arith, h, below)) ],
  IsBelow-weaken object_id m n rows h hs,
)

max_protocol_version-IsBelow :
    {Float : Type 0} (object_id : String) (rows : Dict (Fields Float))
    → All (IsBelow object_id (max_protocol_version rows object_id + 1)) rows
unfolding max_protocol_version
max_protocol_version-IsBelow object_id [] = tt
max_protocol_version-IsBelow object_id ((key, item) ∷ rows) =
    let highest = max_protocol_version rows object_id in
    elim (Bool-cases (is_this_text object_id (get "object_id" item))) [
      | inl e ↦
          let at_max : max_protocol_version ((key, item) ∷ rows) object_id
              ≡ max (version_of (get "version" item)) highest =
            rw e refl in
          (
            inr (omega (arith, at_max)),
            IsBelow-weaken object_id (highest + 1) _ rows (omega (arith, at_max))
                (max_protocol_version-IsBelow object_id rows),
          )
      | inr e ↦
          let at_max : max_protocol_version ((key, item) ∷ rows) object_id ≡ highest = rw e refl in
          (
            inl e,
            IsBelow-weaken object_id (highest + 1) _ rows (omega (arith, at_max))
                (max_protocol_version-IsBelow object_id rows),
          )
    ]

reject_unsafe_protocol_payload-finalized :
    {Float : Type 0} (payload : Fields Float) (s : ProcessSnapshot)
    → is_ok (reject_unsafe_protocol_payload payload s) ≡ true
    → s.process_state ≡ finalized
unfolding reject_unsafe_protocol_payload
reject_unsafe_protocol_payload-finalized payload s h =
    elim (Bool-cases (s.process_state == finalized)) [
      | inl e ↦ (ProcessState_eq.equals_iff s.process_state finalized).0 e
      | inr e ↦
          let refused : is_ok (reject_unsafe_protocol_payload payload s) ≡ false = rw e refl in
          absurd (ground (arith, h, refused))
    ]

validate_snapshot-named :
    (s : ProcessSnapshot) → is_ok (validate_snapshot s) ≡ true → lacks_text s.process_id ≡ false
unfolding validate_snapshot
validate_snapshot-named s h = elim (Bool-cases (lacks_text s.process_id)) [
  | inl e ↦
      let refused : is_ok (validate_snapshot s) ≡ false = rw e refl in
      absurd (ground (arith, h, refused))
  | inr e ↦ e
]

outbox_event_id-ok :
    (protocol_id : String) {event_id : String}
    → outbox_event_id protocol_id ≡ ok event_id
    → (lacks_text protocol_id ≡ false) × (event_id ≡ concat "rin-" protocol_id)
unfolding outbox_event_id
outbox_event_id-ok protocol_id h = elim (Bool-cases (lacks_text protocol_id)) [
  | inl e ↦ absurd (ground (arith, h, e))
  | inr e ↦ (e, ground (arith, h, e))
]

pub save_lem :
    {Float Event Evidence : Type 0} (s : ProcessSnapshot)
    (store : MemoryProcessStore Float Event Evidence)
    {saved : MemoryProcessStore Float Event Evidence}
    → save s store ≡ ok saved
    → saved ≡ record store { rows = insert s.process_id s store.rows }
unfolding save
save_lem s store {saved} h =
    let (valid, e, h') = >>=-eq-ok (validate_snapshot s) _ h in ground (arith, h')

module _ {Float Event Evidence : Type 0} where
  -- The next version of an object's protocol is above the version of every stored protocol of it.
  pub next_protocol_version_lem :
      (object_id : String) (store : MemoryProcessStore Float Event Evidence)
      → All (IsBelow object_id (next_protocol_version object_id store)) store.protocols
  unfolding next_protocol_version
  next_protocol_version_lem object_id store = max_protocol_version-IsBelow object_id store.protocols

  -- The identifiers, the document that may be sent, and the whole store after a materialization.
  pub materialize_finalized-whole :
      (canonical : Fields Float → String) (clone : Fields Float → Fields Float)
      (digest : Fields Float → String) (s : ProcessSnapshot) (payload : Fields Float) (now : ℕ)
      (store : MemoryProcessStore Float Event Evidence)
      {after : MemoryProcessStore Float Event Evidence}
      → materialize_finalized canonical clone digest s payload now store ≡ ok after
      → (protocol_id : String) × (sent : Fields Float) × (s.protocol_id ≡ some protocol_id)
        × (s.process_state ≡ finalized)
        × (protocol_for_rin payload ≡ ok sent)
        × (differs canonical (lookup protocol_id store.protocols) (clone sent) ≡ false)
        × (lacks_text s.process_id ≡ false)
        × (lacks_text protocol_id ≡ false)
        × (after ≡ record store {
          rows = insert s.process_id s store.rows;
          protocols = insert protocol_id (clone sent) store.protocols;
          full_protocols = insert protocol_id (clone payload) store.full_protocols;
          outbox =
              put_item
                (new_item s.process_id protocol_id
                  (digest (clone sent))
                  (concat "rin-" protocol_id)
                  now)
                store.outbox;
        })
  unfolding materialize_finalized store_finalized
  materialize_finalized-whole canonical clone digest s payload now store {after} h =
      let (valid, e0, h0) = >>=-eq-ok (validate_snapshot s) _ h in
      let (safe, e1, h1) = >>=-eq-ok (reject_unsafe_protocol_payload payload s) _ h0 in
      let (protocol_id, e2, h2) =
        >>=-eq-ok (or_raise s.protocol_id (required "FINALIZED требует protocol_id")) _ h1 in
      let (sent, e3, h3) = >>=-eq-ok (raised_as payload_error (protocol_for_rin payload)) _ h2 in
      let (same, e4, h4) =
        >>=-eq-ok
          (raise_if (differs canonical (lookup protocol_id store.protocols) (clone sent))
            (conflict protocol_id))
          _ h3 in
      let (new, e5, h5) =
        >>=-eq-ok
          (raise_if (any (is_taken protocol_id s.object_id (clone sent)) store.protocols)
            (conflict s.object_id))
          _ h4 in
      let (saved, e6, h6) = >>=-eq-ok (save s store) _ h5 in
      let (event_id, e7, h7) = >>=-eq-ok (outbox_event_id protocol_id) _ h6 in
      let (named, at_event) = outbox_event_id-ok protocol_id e7 in
      let at_saved = save_lem s store e6 in
      (
        protocol_id,
        sent,
        ground (arith, e2),
        reject_unsafe_protocol_payload-finalized payload s (ap is_ok e1),
        ground (arith, e3),
        ground (arith, e4),
        validate_snapshot-named s (ap is_ok e0),
        named,
        ground (arith, h7, at_saved, at_event),
      )
