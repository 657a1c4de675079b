-- ===== src/Exchange/Intact.antt =====
-- Every row of the outbox promises the digest of the protocol that the store holds for it.
use kontur.Prelude.{
  ℕ, ◌≡◌, refl, sym, ap, ◌∙◌, true, false, inl, inr, some, Option, ok, String, eq_iff, [], ◌∷◌, All,
  ◌==◌, Bool-cases, if◌then◌else◌, arith,
}
use kontur.Prelude.{String_eq}
use Prim.Native.String.{◌++◌ as concat}
use mathlib.Core.Path.{subst}
use kontur.Prelude.Text.{lacks_text}
use kontur.Prelude.Json.{Fields}
use kontur.Prelude.Dict.{Dict, lookup, insert, lookup-insert}
use kontur.Outbox.{OutboxItem, Outbox, OutboxRow, RinResult}
use kontur.Outbox.Rows.{IsKeyed, keys, promise, All-AllKept}
use kontur.Outbox.Relay.{relay_once_memory_lem}
use kontur.Store.{MemoryProcessStore, ProcessSnapshot, save_finding, replace_findings, clear}
use kontur.Store.Records.{save_audit_event}
use kontur.Store.Materialize.{put_item, new_item, differs, materialize_finalized, load_protocol}
use kontur.Store.Materialized.{materialize_finalized-whole, save_lem}
use kontur.Exchange.{
  protocol_payload_sha256, Step, saves, saves_finding, replaces_findings, materializes, relays,
  audits, saves_evidence, clears, Reached, starts, goes_on, relay_rows, published_digest,
}

module _ {Float : Type 0} (canonical : Fields Float → String) (sha256 : String → String) where
  -- The identifiers that are sent have text, and the digest is that of the stored protocol.
  abbrev pub IsPromised : Dict (Fields Float) → OutboxItem → Type 0
  IsPromised protocols i =
      (stored : Fields Float) × (lookup i.protocol_id protocols ≡ some stored)
      × (i.payload_sha256 ≡ sha256 (canonical stored))
      × (i.event_id ≡ concat "rin-" i.protocol_id)
      × (lacks_text i.process_id ≡ false)
      × (lacks_text i.protocol_id ≡ false)

  abbrev pub IsIntact : {Event Evidence : Type 0} → MemoryProcessStore Float Event Evidence → Type 0
  IsIntact store = All (IsPromised store.protocols) store.outbox × IsKeyed store.outbox

  IsPromised-promise :
      (protocols : Dict (Fields Float)) (i j : OutboxItem)
      → promise j ≡ promise i
      → IsPromised protocols i
      → IsPromised protocols j
  IsPromised-promise protocols i j same (stored, at_stored, at_digest, at_event, named, named') = (
    stored,
    rw (ap (λ q. q.2) same) at_stored,
    ap (λ q. q.4) same ∙ at_digest,
    rw (ap (λ q. q.3) same, ap (λ q. q.2) same) at_event,
    rw (ap (λ q. q.1) same) named,
    rw (ap (λ q. q.2) same) named',
  )

  -- Storing a document in place of one with the same canonical text keeps a promise.
  IsPromised-insert :
      (protocol_id : String) (encoded : Fields Float) (protocols : Dict (Fields Float))
      (i : OutboxItem)
      → differs canonical (lookup protocol_id protocols) encoded ≡ false
      → IsPromised protocols i
      → IsPromised (insert protocol_id encoded protocols) i
  IsPromised-insert protocol_id encoded protocols i same
        (stored, at_stored, at_digest, at_event, named, named') =
      let found = lookup-insert protocol_id i.protocol_id encoded protocols in
      elim (Bool-cases (protocol_id == i.protocol_id)) [
        | inl e ↦
            let at_id : protocol_id ≡ i.protocol_id = (eq_iff protocol_id i.protocol_id).0 e in
            let at_old : lookup protocol_id protocols ≡ some stored = rw at_id at_stored in
            let texts : canonical stored ≡ canonical encoded =
              ground (arith, same, at_old, eq_iff (canonical stored) (canonical encoded)) in
            (
              encoded,
              ground (arith, found, e),
              at_digest ∙ ap sha256 texts,
              at_event,
              named,
              named',
            )
        | inr e ↦ (stored, ground (arith, found, e, at_stored), at_digest, at_event, named, named')
      ]

  All-IsPromised-insert :
      (protocol_id : String) (encoded : Fields Float) (protocols : Dict (Fields Float))
      (is : Outbox)
      → differs canonical (lookup protocol_id protocols) encoded ≡ false
      → All (IsPromised protocols) is
      → All (IsPromised (insert protocol_id encoded protocols)) is
  All-IsPromised-insert protocol_id encoded protocols [] same h = tt
  All-IsPromised-insert protocol_id encoded protocols (i ∷ is) same h = (
    IsPromised-insert protocol_id encoded protocols i same h.0,
    All-IsPromised-insert protocol_id encoded protocols is same h.1,
  )

All-put_item :
    (P : OutboxItem → Type 0) (item : OutboxItem) (is : Outbox)
    → P item
    → All P is
    → All P (put_item item is)
unfolding put_item
All-put_item P item [] one h = (one, tt)
All-put_item P item (i ∷ is) one h =
    elim (i.protocol_id == item.protocol_id)
      as (λ b. All P (if b then item ∷ is else i ∷ put_item item is)) [
        | true ↦ (one, h.1)
        | false ↦ (h.0, All-put_item P item is one h.1)
      ]

-- A key that differs from the item's and from all others still does.
differs-put_item :
    (k : String) (item : OutboxItem) (is : Outbox)
    → (k == item.protocol_id) ≡ false
    → All (λ j. (k == j) ≡ false) (keys is)
    → All (λ j. (k == j) ≡ false) (keys (put_item item is))
unfolding put_item
differs-put_item k item [] e h = (e, tt)
differs-put_item k item (i ∷ is) e h = ground (arith, differs-put_item k item is e h.1)

IsKeyed-put_item : (item : OutboxItem) (is : Outbox) → IsKeyed is → IsKeyed (put_item item is)
unfolding put_item
IsKeyed-put_item item [] h = (tt, tt)
IsKeyed-put_item item (i ∷ is) h = elim (Bool-cases (i.protocol_id == item.protocol_id)) [
  | inl e ↦
      let same : i.protocol_id ≡ item.protocol_id = (eq_iff i.protocol_id item.protocol_id).0 e in
      rw e (subst (λ k. All (λ j. (k == j) ≡ false) (keys is)) same h.0, h.1)
  | inr e ↦ rw e (differs-put_item i.protocol_id item is e h.0, IsKeyed-put_item item is h.1)
]

module _ {Float Event Evidence : Type 0} (canonical : Fields Float → String)
    (clone : Fields Float → Fields Float) (sha256 : String → String) where
  materialize_finalized-IsIntact :
      (s : ProcessSnapshot) (payload : Fields Float) (now : ℕ)
      (store : MemoryProcessStore Float Event Evidence)
      {after : MemoryProcessStore Float Event Evidence}
      → materialize_finalized canonical clone
          (protocol_payload_sha256 canonical clone sha256)
          s
          payload
          now
          store
        ≡ ok after
      → IsIntact canonical sha256 store
      → IsIntact canonical sha256 after
  materialize_finalized-IsIntact s payload now store h (promised, keyed) =
      let (protocol_id, sent, at_id, final, cut, same, named, named', at_after) =
        materialize_finalized-whole canonical clone _ s payload now store h in
      let protocols = insert protocol_id (clone sent) store.protocols in
      let item =
        new_item s.process_id protocol_id (sha256 (canonical (clone sent)))
          (concat "rin-" protocol_id) now in
      let stored : lookup protocol_id protocols ≡ some (clone sent) = ground (
        arith,
        lookup-insert protocol_id protocol_id (clone sent) store.protocols,
        eq_iff protocol_id protocol_id,
      ) in
      subst (IsIntact canonical sha256) (sym at_after) (
        All-put_item (IsPromised canonical sha256 protocols) item store.outbox
            (clone sent, stored, refl, refl, named, named')
            (All-IsPromised-insert canonical sha256 protocol_id (clone sent) store.protocols
              store.outbox same promised),
        IsKeyed-put_item item store.outbox keyed,
      )

  relay_rows-IsIntact :
      (publish : OutboxRow → String → Option String) (deliver : String → String → RinResult)
      (now : ℕ) (store : MemoryProcessStore Float Event Evidence)
      → IsIntact canonical sha256 store
      → IsIntact canonical sha256 (record store {
        outbox = (relay_rows canonical clone sha256 publish deliver now store).1;
      })
  relay_rows-IsIntact publish deliver now store (promised, keyed) =
      let (spent, kept, keyed') =
        relay_once_memory_lem (λ protocol_id. load_protocol clone protocol_id store)
          (published_digest canonical clone sha256) (λ row d. publish row (canonical d))
          (λ d. deliver (canonical d)) now store.outbox keyed in
      (
        All-AllKept (IsPromised canonical sha256 store.protocols)
            (IsPromised-promise canonical sha256 store.protocols) store.outbox _ kept promised,
        keyed',
      )

  pub Step-IsIntact :
      {store after : MemoryProcessStore Float Event Evidence}
      → IsIntact canonical sha256 store
      → Step canonical clone sha256 store after
      → IsIntact canonical sha256 after
  unfolding save_finding replace_findings save_audit_event clear
  Step-IsIntact {store} intact (saves s h) =
      subst (IsIntact canonical sha256) (sym (save_lem s store h)) intact
  Step-IsIntact intact (saves_finding process_id f) = intact
  Step-IsIntact intact (replaces_findings process_id fs) = intact
  Step-IsIntact {store} intact (materializes s payload now h) =
      materialize_finalized-IsIntact s payload now store h intact
  Step-IsIntact {store} intact (relays publish deliver now) =
      relay_rows-IsIntact publish deliver now store intact
  Step-IsIntact intact (audits process_id event) = intact
  Step-IsIntact intact (saves_evidence process_id raw h) = intact
  Step-IsIntact intact clears = (tt, tt)

  -- In every store that a run reaches, however materializations, saves and turns of the relay follow on
  -- each other, the keys of the outbox differ, and each row names a stored protocol, carries the digest of
  -- its canonical text and its event identifier, and has a process and a protocol with text.
  pub Reached-IsIntact :
      (store : MemoryProcessStore Float Event Evidence)
      → Reached canonical clone sha256 store
      → IsIntact canonical sha256 store
  Reached-IsIntact store starts = (tt, tt)
  Reached-IsIntact store (goes_on {store = before} reached step) =
      Step-IsIntact (Reached-IsIntact before reached) step
