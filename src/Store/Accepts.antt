-- ===== src/Store/Accepts.antt =====
-- When a protocol is materialized, and what of the store that changes.
use kontur.Prelude.{
  ℕ, ◌≡◌, ◌↔◌, refl, sym, ap, ◌∙◌, inl, inr, Bool, true, false, not, ◌&&◌, Option, none, some,
  String, any, ok, is_ok, Result, err, raise_if, ◌>>◌, ◌>>=◌, ◌==◌, Bool-cases, arith,
}
use kontur.Prelude.{String_eq, or_raise, raised_as, Result-cases}
use Prim.Native.String.{◌++◌ as concat}
use kontur.Prelude.Json.{Fields, get}
use kontur.Prelude.Dict.{lookup, insert}
use kontur.Prelude.Text.{lacks_text}
use kontur.Domain.Status.{ProcessState_eq, finalized, SyncState_eq}
use kontur.Protocol.Wire.{PayloadError, protocol_for_rin}
use kontur.Store.{
  ProcessSnapshot, required, payload_error, validate_snapshot, reject_unsafe_protocol_payload,
  outbox_event_id, is_this_text, is_this_number, version_of, MemoryProcessStore, save,
}
use kontur.Outbox.{pending}
use kontur.Store.Materialized.{materialize_finalized-whole}
use kontur.Store.Materialize.{put_item, differs, is_taken, store_finalized, materialize_finalized}
use kontur.Store.Guards.{
  is_snapshot, is_document, guard, is_ok-then, not-not, validate_snapshot_iff,
  reject_unsafe_protocol_payload_iff,
}

-- Two steps that may raise, and a value of what they give.
is_ok-saved :
    {E X Y Z : Type 0} (r : Result E (Unit {0})) (x : X) (b : Bool) (e : E) (y : Y) (f : X → Y → Z)
    → is_ok ((r >> ok x) >>= λ a. (raise_if b e >> ok y) >>= λ c. ok (f a c)) ≡ (is_ok r && not b)
is_ok-saved (ok tt) x true e y f = refl
is_ok-saved (ok tt) x false e y f = refl
is_ok-saved (err e') x b e y f = refl

and_assoc : (a b c : Bool) → (a && (b && c)) ≡ ((a && b) && c)
and_assoc a b c = ground arith

abbrev has_this_text :
    {Float : Type 0} → (Fields Float → String) → Fields Float → Option (Fields Float) → Bool
has_this_text canonical encoded none = true
has_this_text canonical encoded (some existing) = canonical existing == canonical encoded

has_this_text-differs :
    {Float : Type 0} (canonical : Fields Float → String) (encoded : Fields Float)
    (stored : Option (Fields Float))
    → not (differs canonical stored encoded) ≡ has_this_text canonical encoded stored
has_this_text-differs canonical encoded none = refl
has_this_text-differs canonical encoded (some existing) = not-not _

module _ {Float Event Evidence : Type 0} (canonical : Fields Float → String)
    (clone : Fields Float → Fields Float) where
  -- Where the protocol is stored already it has the text, and no other protocol of the object has the
  -- version.
  abbrev pub is_new :
      String → String → Fields Float → MemoryProcessStore Float Event Evidence → Bool
  is_new protocol_id object_id encoded store =
      has_this_text canonical encoded (lookup protocol_id store.protocols)
      && not (
          any
            (λ row.
              is_this_text object_id (get "object_id" row.1)
              && (is_this_number (version_of (get "version" encoded)) (get "version" row.1)
                  && not (is_this_text protocol_id (get "protocol_id" row.1))))
            store.protocols)

  -- What materializing asks of the snapshot, the document, what may be sent of it, and the store.
  abbrev pub accepts :
      Option String
      → Result PayloadError (Fields Float)
      → ProcessSnapshot
      → Fields Float
      → MemoryProcessStore Float Event Evidence
      → Bool
  accepts none cut s payload store = false
  accepts (some protocol_id) (err e) s payload store = false
  accepts (some protocol_id) (ok sent) s payload store =
      is_snapshot s
      && (is_document protocol_id s payload && is_new protocol_id s.object_id (clone sent) store)

  store_finalized_ok_iff :
      (digest : Fields Float → String) (s : ProcessSnapshot) (payload : Fields Float) (now : ℕ)
      (store : MemoryProcessStore Float Event Evidence) (protocol_id : String)
      (encoded : Fields Float)
      → is_ok (store_finalized canonical clone digest s payload now store protocol_id encoded) ≡ (
          is_new protocol_id s.object_id encoded store
          && (is_ok (validate_snapshot s) && not (lacks_text protocol_id)))
  unfolding store_finalized save outbox_event_id
  store_finalized_ok_iff digest s payload now store protocol_id encoded =
      guard (differs canonical (lookup protocol_id store.protocols) encoded) _ _ _
        (has_this_text-differs canonical encoded (lookup protocol_id store.protocols))
        (guard (any (is_taken protocol_id s.object_id encoded) store.protocols) _ _ _ refl
          (is_ok-saved (validate_snapshot s) _ (lacks_text protocol_id) _ _ _))
      ∙ and_assoc (has_this_text canonical encoded (lookup protocol_id store.protocols))
          (not (any (is_taken protocol_id s.object_id encoded) store.protocols))
          (is_ok (validate_snapshot s) && not (lacks_text protocol_id))

  -- The steps after the guards, for an identifier that may be missing and a cut that may fail.
  cut_iff :
      (digest : Fields Float → String) (s : ProcessSnapshot) (payload : Fields Float) (now : ℕ)
      (store : MemoryProcessStore Float Event Evidence) (o : Option String)
      (cut : Result PayloadError (Fields Float))
      → s.protocol_id ≡ o
      → (is_ok (validate_snapshot s)
          && (is_ok (reject_unsafe_protocol_payload payload s)
              && is_ok (
                  or_raise o (required "FINALIZED требует protocol_id") >>= λ protocol_id.
                  raised_as payload_error cut >>= λ sent.
                  store_finalized canonical clone digest s payload now store protocol_id
                    (clone sent))))
        ≡ accepts o cut s payload store
  cut_iff digest s payload now store none cut e = ground arith
  cut_iff digest s payload now store (some protocol_id) (err error) e = ground arith
  cut_iff digest s payload now store (some protocol_id) (ok sent) e =
      let safe = reject_unsafe_protocol_payload_iff payload s protocol_id e in
      let stored = store_finalized_ok_iff digest s payload now store protocol_id (clone sent) in
      ap
        (λ b.
          is_ok (validate_snapshot s) && (is_ok (reject_unsafe_protocol_payload payload s) && b))
        stored
      ∙ ap
          (λ b.
            is_ok (validate_snapshot s)
            && (b
                && (is_new protocol_id s.object_id (clone sent) store
                    && (is_ok (validate_snapshot s) && not (lacks_text protocol_id)))))
          safe
      ∙ (elim (Bool-cases (s.process_state == finalized)) [
        | inl final ↦
            by_tests (is_ok (validate_snapshot s)) (is_snapshot s) (s.process_state == finalized)
              (lacks_text protocol_id) (is_document protocol_id s payload)
              (is_new protocol_id s.object_id (clone sent) store)
              (validate_snapshot_iff s
                ((ProcessState_eq.equals_iff s.process_state finalized).0 final))
              final (λ blank. ground (arith, e, blank))
        | inr still_open ↦ ground (arith, still_open)
      ])
    where
      by_tests :
          (valid whole final blank document new : Bool)
          → valid ≡ whole
          → final ≡ true
          → (blank ≡ true → whole ≡ false)
          → (valid && ((final && (not blank && document)) && (new && (valid && not blank))))
            ≡ (whole && (document && new))
      by_tests valid whole final blank document new h h' h'' = ground (arith, h, h', h'')

  materialize_finalized_ok_iff :
      (digest : Fields Float → String) (s : ProcessSnapshot) (payload : Fields Float) (now : ℕ)
      (store : MemoryProcessStore Float Event Evidence)
      → is_ok (materialize_finalized canonical clone digest s payload now store)
        ≡ accepts s.protocol_id (protocol_for_rin payload) s payload store
  unfolding materialize_finalized
  materialize_finalized_ok_iff digest s payload now store =
      is_ok-then (validate_snapshot s) _
      ∙ ap (λ b. is_ok (validate_snapshot s) && b)
          (is_ok-then (reject_unsafe_protocol_payload payload s) _)
      ∙ cut_iff digest s payload now store s.protocol_id (protocol_for_rin payload) refl

  -- The store with a finalized protocol and its row.
  abbrev pub finalized_store :
      (Fields Float → String)
      → ProcessSnapshot
      → Fields Float
      → ℕ
      → MemoryProcessStore Float Event Evidence
      → String
      → Fields Float
      → MemoryProcessStore Float Event Evidence
  finalized_store digest s payload now store protocol_id sent = record store {
    rows = insert s.process_id s store.rows;
    protocols = insert protocol_id (clone sent) store.protocols;
    full_protocols = insert protocol_id (clone payload) store.full_protocols;
    outbox =
        put_item
          (record {
            id = concat "outbox-" protocol_id;
            process_id = s.process_id;
            protocol_id = protocol_id;
            payload_sha256 = digest (clone sent);
            event_id = concat "rin-" protocol_id;
            status = pending;
            attempts = 0;
            available_at = now;
            last_error = none;
          })
          store.outbox;
  }

  -- A protocol is materialized exactly if the snapshot is finalized by somebody, names its process, object
  -- and protocol and keeps its limits, the document is a finalized protocol with the same identifiers and a
  -- version and no placeholder, a part of it may be sent, and the store has no other text under the
  -- protocol's identifier and no other protocol of the object with the version. It then stores that part
  -- and the full document under the protocol's identifier, the snapshot under the process's, and a row of
  -- the outbox that is due at once and was never tried; it changes nothing else.
  pub materialize_finalized_lem :
      (digest : Fields Float → String) (s : ProcessSnapshot) (payload : Fields Float) (now : ℕ)
      (store after : MemoryProcessStore Float Event Evidence)
      → (materialize_finalized canonical clone digest s payload now store ≡ ok after) ↔ (
          (accepts s.protocol_id (protocol_for_rin payload) s payload store ≡ true)
          × ((protocol_id : String) × (sent : Fields Float) × (s.protocol_id ≡ some protocol_id)
              × (protocol_for_rin payload ≡ ok sent)
              × (after ≡ finalized_store digest s payload now store protocol_id sent)))
  materialize_finalized_lem digest s payload now store after = (
    (λ h.
        let (protocol_id, sent, at_id, final, cut, same, named, named', at_after) =
          materialize_finalized-whole canonical clone digest s payload now store h in
        (
          sym (materialize_finalized_ok_iff digest s payload now store) ∙ ap is_ok h,
          (protocol_id, sent, at_id, cut, at_after),
        )),
    (λ (accepted, (protocol_id, sent, at_id, cut, at_after)).
        elim (Result-cases (materialize_finalized canonical clone digest s payload now store)) [
          | inl (end, done) ↦
              let (protocol_id', sent', at_id', final, cut', same, named, named', at_end) =
                materialize_finalized-whole canonical clone digest s payload now store done in
              let same_id : protocol_id' ≡ protocol_id = ground (arith, at_id, at_id') in
              let same_sent : sent' ≡ sent = ground (arith, cut, cut') in
              done
              ∙ ap ok (
                  at_end
                  ∙ ap (λ p. finalized_store digest s payload now store p sent') same_id
                  ∙ ap (finalized_store digest s payload now store protocol_id) same_sent
                  ∙ sym at_after)
          | inr (error, failed) ↦
              let refused : false ≡ true =
                ap is_ok (sym failed)
                ∙ materialize_finalized_ok_iff digest s payload now store
                ∙ accepted in
              absurd (ground (arith, refused))
        ]),
  )
