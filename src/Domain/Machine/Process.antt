-- ===== src/Domain/Machine/Process.antt =====
-- The life of one process under every operation that `state_machines.py` offers on its state.
use kontur.Prelude.{
  ℕ, ◌≤◌, ◌<◌, ◌≡◌, refl, ◌≢◌, inl, inr, Bool, true, false, ◌&&◌, String, List, [], ◌∷◌, any,
  Result, ok, err, ltb, nat_eq, Bool-cases, arith,
}
use kontur.Prelude.Text.{lacks_text}
use kontur.Domain.Status.{
  ProcessState, pending, parsing, ready, verifying, completed, finalized, ProcessState_eq,
}
use kontur.Domain.Machine.{
  Actor, TransitionError, enter_verifying, enter_completed, enter_finalized, advance_process,
  unfinalize,
}

pub data ProcessOp : Type 0 where
  verify complete finalize : Actor → ProcessOp
  advance : ProcessState → ProcessOp
  reopen : Actor → String → ProcessOp

unfoldable pub apply_op : ProcessState → ProcessOp → Result TransitionError ProcessState
unfolding enter_verifying enter_completed enter_finalized advance_process unfinalize
apply_op s (verify a) = enter_verifying s a
apply_op s (complete a) = enter_completed s a
apply_op s (finalize a) = enter_finalized s a
apply_op s (advance t) = advance_process s t
apply_op s (reopen a reason) = unfinalize s a reason

abbrev keep : ProcessState → Result TransitionError ProcessState → ProcessState
keep s (ok t) = t
keep s (err _) = s

-- A refused operation changes nothing.
unfoldable pub run_ops : ProcessState → List ProcessOp → ProcessState
run_ops s [] = s
run_ops s (op ∷ ops) = run_ops (keep s (apply_op s op)) ops

-- How far the inspector has taken the process: 1 verifying, 2 completed, 3 finalized.
abbrev pub human_rank : ProcessState → ℕ
human_rank verifying = 1
human_rank completed = 2
human_rank finalized = 3
human_rank _ = 0

-- The operation that takes a process to rank `k`, done by a human.
abbrev pub is_human_step : ℕ → ProcessOp → Bool
is_human_step k (verify a) = a.is_human && nat_eq k 1
is_human_step k (complete a) = a.is_human && nat_eq k 2
is_human_step k (finalize a) = a.is_human && nat_eq k 3
is_human_step k _ = false

rank_step :
    (s : ProcessState) (op : ProcessOp) (k : ℕ)
    → human_rank s < k
    → k ≤ human_rank (keep s (apply_op s op))
    → is_human_step k op ≡ true
unfolding apply_op
rank_step s (verify a) k h l = ground arith
rank_step s (complete a) k h l = ground arith
rank_step s (finalize a) k h l = ground arith
rank_step s (advance t) k h l = ground arith
rank_step s (reopen a r) k h l = ground arith

rank_run :
    (s : ProcessState) (ops : List ProcessOp) (k : ℕ)
    → human_rank s < k
    → k ≤ human_rank (run_ops s ops)
    → any (is_human_step k) ops ≡ true
unfolding run_ops
rank_run s [] k h l = absurd (omega arith)
rank_run s (op ∷ ops) k h l = elim (Bool-cases (is_human_step k op)) [
  | inl this ↦ rw this
  | inr not_this ↦ rw not_this (
      rank_run (keep s (apply_op s op)) ops k
        (elim (Bool-cases (ltb (human_rank (keep s (apply_op s op))) k)) [
          | inl lower ↦ ground arith
          | inr not_lower ↦ absurd (ground (arith, rank_step s op k h))
        ])
        l)
]

-- A process that starts at PENDING and ends at FINALIZED, by whatever operations in whatever order,
-- has had a human open its queue, a human close the queue and a human finalize it.
pub finalized_needs_human :
    (ops : List ProcessOp)
    → run_ops pending ops ≡ finalized
    → (any (is_human_step 1) ops ≡ true)
      × (any (is_human_step 2) ops ≡ true)
      × (any (is_human_step 3) ops ≡ true)
finalized_needs_human ops e = (
  rank_run pending ops 1 (omega arith) (rw e (omega arith)),
  rank_run pending ops 2 (omega arith) (rw e (omega arith)),
  rank_run pending ops 3 (omega arith) (rw e (omega arith)),
)

-- A finalized process is left only by a human's `unfinalize` with a reason: any other operation,
-- by anybody, is refused, and that one leads back to COMPLETED.
pub finalized_only_reopens :
    (op : ProcessOp) (t : ProcessState)
    → apply_op finalized op ≡ ok t
    → (t ≡ completed)
      × (actor : Actor) × (reason : String) × (op ≡ reopen actor reason)
      × (actor.is_human ≡ true)
      × (lacks_text reason ≡ false)
unfolding apply_op
finalized_only_reopens (verify a) t h = ground arith
finalized_only_reopens (complete a) t h = ground arith
finalized_only_reopens (finalize a) t h = ground arith
finalized_only_reopens (advance u) t h = ground arith
finalized_only_reopens (reopen a r) t h = (ground arith, a, r, refl, ground arith, ground arith)

-- What the pipeline asks for after an upload.
abbrev pub parse_path : List ProcessOp
parse_path = advance parsing ∷ advance ready ∷ []

-- From every state but FINALIZED an upload and the end of the parsing, both with no actor, take the
-- process to READY.
pub reparse_reaches_ready : (s : ProcessState) → s ≢ finalized → run_ops s parse_path ≡ ready
unfolding run_ops apply_op
reparse_reaches_ready s h = ground arith
