-- ===== src/Domain/Machine/Sync.antt =====
-- The transfer to the outside system: what `advance_sync` can reach.
use kontur.Prelude.{◌≡◌, refl, ◌≢◌, inl, inr, ok, ◌==◌, Bool-cases, arith}
use kontur.Domain.Status.{
  SyncState, not_requested, pending_sync, syncing, synced, retry_wait, failed_terminal,
  SyncState_eq,
}
use kontur.Domain.Machine.{advance_sync}

infix 40 ◌⟶◌ ◌⟶*◌
-- An accepted move.
abbrev pub ◌⟶◌ : SyncState → SyncState → Type 0
s ⟶ t = advance_sync s t ≡ ok t

pub data ◌⟶*◌ : SyncState → SyncState → Type 0 where
  here : {s : SyncState} → s ⟶* s
  move : {s t u : SyncState} → s ⟶ t → t ⟶* u → s ⟶* u

entry_synced : (s : SyncState) → s ⟶ synced → s ≡ syncing
unfolding advance_sync
entry_synced s h = ground arith

synced_stuck : (t : SyncState) → ¬ (synced ⟶ t)
unfolding advance_sync
synced_stuck t h = ground arith

-- A delivered protocol stays delivered.
pub synced_stays : {t : SyncState} → synced ⟶* t → t ≡ synced
synced_stays here = refl
synced_stays (move m p) = absurd (synced_stuck _ m)

-- Every way into SYNCED goes through SYNCING: a state from which SYNCED can be reached, and which is
-- not SYNCED itself, reaches SYNCING too.
pub synced_via_syncing : {s t : SyncState} → s ⟶* t → t ≡ synced → s ≢ synced → s ⟶* syncing
synced_via_syncing here e ne = absurd (ne e)
synced_via_syncing {s} (move {t = u} m p) e ne = elim (Bool-cases (u == synced)) [
  | inl last ↦ rw (entry_synced s (rw (← (SyncState_eq.equals_iff u synced).0 last) m)) here
  | inr other ↦
      move m (synced_via_syncing p e (λ q. ground (arith, SyncState_eq.equals_iff u synced)))
]

-- A failure never closes the way to delivery: from every state there are allowed
-- moves that lead to SYNCED.
pub delivery_reachable : (s : SyncState) → s ⟶* synced
unfolding advance_sync
delivery_reachable not_requested =
    move {t = pending_sync} refl (move {t = syncing} refl (move {t = synced} refl here))
delivery_reachable pending_sync = move {t = syncing} refl (move {t = synced} refl here)
delivery_reachable syncing = move {t = synced} refl here
delivery_reachable synced = here
delivery_reachable retry_wait = move {t = syncing} refl (move {t = synced} refl here)
delivery_reachable failed_terminal =
    move {t = pending_sync} refl (move {t = syncing} refl (move {t = synced} refl here))
