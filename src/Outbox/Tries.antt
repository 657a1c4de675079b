-- ===== src/Outbox/Tries.antt =====
-- How often the relay tries a row.
use kontur.Prelude.{
  ℕ, ◌+◌, ◌-◌, ◌*◌, ◌≤◌, ◌<◌, ◌≡◌, ◌⊎◌, refl, sym, ap, ◌∙◌, inl, inr, Option, none, some, String,
  eq_iff, List, [], ◌∷◌, length, find, ◌==◌, if◌then◌else◌, Bool-cases, Option-cases, arith,
}
use kontur.Prelude.{String_eq}
use kontur.Outbox.{
  OutboxItem, OutboxRow, Outbox, is_eligible, change_first, leased, claim_memory, RinResult,
  relay_once_memory,
}
use kontur.Outbox.Rows.{IsKeyed, budget-le}
use kontur.Outbox.Claim.{claim_memory_lem}
use kontur.Outbox.Marks.{tried}
use kontur.Outbox.Relay.{
  relay-IsMarked, relay_of_no_claim, relay_once_memory_lem, tries, tries-le-budget,
}

tried-found :
    (key : String) (is : Outbox) {item : OutboxItem}
    → find (λ i. i.protocol_id == key) is ≡ some item
    → tried key is ≡ item.attempts
tried-found key [] h = cc
tried-found key (i ∷ is) {item} h = elim (Bool-cases (i.protocol_id == key)) [
  | inl e ↦ let same : i ≡ item = ground (arith, h, e) in rw e (ap (λ j. j.attempts) same)
  | inr e ↦
      let h' : find (λ j. j.protocol_id == key) is ≡ some item = ground (arith, h, e) in
      rw e (tried-found key is h')
]

-- Leasing the row of a key counts one more try of it, and none of the others.
tried-leased :
    (now : ℕ) (k key : String) (is : Outbox) {item : OutboxItem}
    → find (λ i. i.protocol_id == k) is ≡ some item
    → tried key (change_first (λ i. i.protocol_id == k) (leased now) is)
      ≡ tried key is + (if k == key then 1 else 0)
tried-leased now k key [] h = cc
tried-leased now k key (i ∷ is) {item} h = elim (Bool-cases (i.protocol_id == k)) [
  | inl e ↦
      let named : i.protocol_id ≡ k = (eq_iff i.protocol_id k).0 e in rw e (rw named (ground arith))
  | inr e ↦
      let h' : find (λ j. j.protocol_id == k) is ≡ some item = ground (arith, h, e) in
      let rest = tried-leased now k key is h' in
      rw e (ground (arith, rest, e, eq_iff i.protocol_id key, eq_iff k key, eq_iff i.protocol_id k))
]

module _ {Body : Type 0} (stored_protocol : String → Option Body) (digest : Body → String)
    (publish : OutboxRow → Body → Option String) (deliver : Body → String → RinResult) where
  abbrev relay : ℕ → Outbox → Outbox
  relay now outbox = (relay_once_memory Body stored_protocol digest publish deliver now outbox).1

  -- Whether a claim is one of the row with the key.
  abbrev counted : String → Option (OutboxRow × Outbox) → ℕ
  counted key none = 0
  counted key (some (row, after)) = if row.protocol_id == key then 1 else 0

  counted-le : (key : String) (c : Option (OutboxRow × Outbox)) → counted key c ≤ 1
  counted-le key none = omega arith
  counted-le key (some (row, after)) = ground arith

  -- How many turns of the relay at these moments try the row with the key.
  pub tries_of : String → List ℕ → Outbox → ℕ
  tries_of key [] outbox = 0
  tries_of key (now ∷ moments) outbox =
      counted key (claim_memory now outbox) + tries_of key moments (relay now outbox)

  turn-tried :
      (key : String) (now : ℕ) (outbox : Outbox)
      → IsKeyed outbox
      → (tried key (relay now outbox) ≡ tried key outbox + counted key (claim_memory now outbox))
        × ((counted key (claim_memory now outbox) ≡ 0) ⊎ (tried key outbox < 4))
  unfolding is_eligible
  turn-tried key now outbox keyed = elim (Option-cases (claim_memory now outbox)) [
    | inl e ↦
        let same = relay_of_no_claim stored_protocol digest publish deliver now outbox e in
        (rw (same, e) (omega arith), rw e (inl refl))
    | inr ((row, claimed), e) ↦
        let (item, (found, eligible, least, at_row, at_claimed)) =
          claim_memory_lem now outbox keyed e in
        let (spent, kept, same_keys, same_tries) =
          relay-IsMarked stored_protocol digest publish deliver now outbox e in
        let leased = tried-leased now item.protocol_id key outbox found in
        let at_key : row.protocol_id ≡ item.protocol_id = ap (λ r. r.protocol_id) at_row in
        (
          rw e (same_tries key ∙ ap (tried key) at_claimed ∙ rw at_key leased),
          elim (Bool-cases (item.protocol_id == key)) [
            | inl this ↦
                let named : item.protocol_id ≡ key = (eq_iff item.protocol_id key).0 this in
                inr (
                  rw (sym named, tried-found item.protocol_id outbox found)
                    (ground (arith, eligible)))
            | inr other ↦ rw e (rw at_key (rw other (inl refl)))
          ],
        )
  ]

  tries_of-le :
      (key : String) (moments : List ℕ) (outbox : Outbox)
      → IsKeyed outbox
      → tries_of key moments outbox ≤ 4 - tried key outbox
  unfolding tries_of
  tries_of-le key [] outbox keyed = omega arith
  tries_of-le key (now ∷ moments) outbox keyed =
      let (spent, kept, keyed') =
        relay_once_memory_lem stored_protocol digest publish deliver now outbox keyed in
      let (counts, left) = turn-tried key now outbox keyed in
      let rest = tries_of-le key moments (relay now outbox) keyed' in
      elim left [
        | inl none_now ↦ omega (arith, none_now, rest, counts)
        | inr some_left ↦
            omega (arith, some_left, rest, counts, counted-le key (claim_memory now outbox))
      ]

  -- In an outbox whose keys differ each row is tried at most four times, however often and whenever the
  -- relay runs, and whatever the broker and the outside system answer; so there are at most four times as
  -- many tries as rows.
  pub tries_are_bounded :
      (moments : List ℕ) (outbox : Outbox)
      → IsKeyed outbox
      → ((key : String) → tries_of key moments outbox ≤ 4)
        × (tries stored_protocol digest publish deliver moments outbox ≤ 4 * length outbox)
  tries_are_bounded moments outbox keyed = (
    (λ key. omega (arith, tries_of-le key moments outbox keyed)),
    omega (
      arith,
      tries-le-budget stored_protocol digest publish deliver moments outbox keyed,
      budget-le outbox,
    ),
  )
