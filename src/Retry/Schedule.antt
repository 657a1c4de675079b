-- ===== src/Retry/Schedule.antt =====
-- Retries end, and the end is reported.
use kontur.Prelude.{
  ℕ, zero, suc, ◌+◌, ◌-◌, ◌≤◌, ◌<◌, min, ◌≡◌, refl, ◌≢◌, inl, inr, true, false, not, Option, none,
  some, is_some, List, [], ◌∷◌, length, get_elem?, Result, ok, err, is_ok, ltb, leb, Bool-cases,
  Option-cases, arith,
}
use mathlib.Core.Option
use kontur.Domain.Status.{syncing, pending_sync}
use kontur.Domain.Machine.{advance_sync}
use kontur.Retry.{
  parse_exhausted, parse_retry, sync_exhausted, RetryError, RetryDecision, SyncRetryDecision,
  next_parse_attempt, next_sync_attempt, sync_backoff_seconds,
}

get_elem?-lt : (l : List ℕ) (i : ℕ) → i < length l → (d : ℕ) × (get_elem? l i ≡ some d)
get_elem?-lt [] i h = absurd (omega arith)
get_elem?-lt (x ∷ l) zero h = (x, refl)
get_elem?-lt (x ∷ l) (suc i) h = get_elem?-lt l i (omega arith)

-- After the first failed attempt and with a delay to wait, there is always a decision: to retry, with a
-- delay, while no more attempts than the limit were made, and otherwise to notify the administrator.
-- Exactly one of the two is decided, and the counter is carried along.
pub next_parse_attempt_lem :
    (attempts max_retries : ℕ) (backoff : List ℕ)
    → 1 ≤ attempts
    → backoff ≢ []
    → (d : RetryDecision) × (next_parse_attempt attempts max_retries backoff ≡ ok d)
      × (d.attempts_done ≡ attempts)
      × (d.retry ≡ leb attempts max_retries)
      × (d.notify_admin ≡ not d.retry)
      × (is_some d.delay_seconds ≡ d.retry)
unfolding next_parse_attempt
next_parse_attempt_lem a m [] h ne = absurd (ne refl)
next_parse_attempt_lem a m (b ∷ bs) h ne = elim (Bool-cases (ltb m a)) [
  | inl over ↦ (
    record {
      attempts_done = a;
      retry = false;
      delay_seconds = none;
      notify_admin = true;
      reason = parse_exhausted m;
    },
    ground arith,
    refl,
    ground arith,
    refl,
    refl,
  )
  | inr under ↦
      let (d, e) = get_elem?-lt (b ∷ bs) (min (a - 1) (length (b ∷ bs) - 1)) (omega arith) in
      (
        record {
          attempts_done = a;
          retry = true;
          delay_seconds = some d;
          notify_admin = false;
          reason = parse_retry a m d;
        },
        ground (arith, e),
        refl,
        ground arith,
        refl,
        refl,
      )
]

-- The delays of a run in which every attempt fails: nothing if a decision raises, the empty list once
-- the policy gives up, and otherwise one more delay.
abbrev after : Result RetryError RetryDecision → Option (List ℕ) → Option (List ℕ)
after (err _) rest = none
after (ok d) rest = elim d.delay_seconds [
  | none ↦ some []
  | some s ↦ Option.map (λ ds. s ∷ ds) rest
]

unfoldable pub parse_delays : ℕ → ℕ → ℕ → List ℕ → Option (List ℕ)
parse_delays zero attempts max_retries backoff = none
parse_delays (suc fuel) attempts max_retries backoff =
    let rest = parse_delays fuel (attempts + 1) max_retries backoff in
    after (next_parse_attempt attempts max_retries backoff) rest

-- A run of failures that has made some attempts, the limit not yet passed, waits once for each retry
-- that is left and then ends.
parse_delays_from :
    (fuel attempts max_retries : ℕ) (backoff : List ℕ)
    → 1 ≤ attempts
    → backoff ≢ []
    → max_retries + 1 - attempts < fuel
    → attempts ≤ max_retries + 1
    → (ds : List ℕ) × (parse_delays fuel attempts max_retries backoff ≡ some ds)
      × (length ds + attempts ≡ max_retries + 1)
unfolding parse_delays
parse_delays_from zero a m b pos ne f le = absurd (omega arith)
parse_delays_from (suc fuel) a m b pos ne f le =
    let (d, e, ea, er, en, ed) = next_parse_attempt_lem a m b pos ne in
    elim (Option-cases d.delay_seconds) [
      | inl stop ↦ ([], rw (e, after) (ground arith), ground arith)
      | inr (s, go) ↦
          let (ds, eds, n) =
            parse_delays_from fuel (a + 1) m b (omega arith) ne (ground arith) (ground arith) in
          (s ∷ ds, ground arith, omega arith)
    ]

-- Parsing that keeps failing is tried again exactly as often as the limit says, and then the run ends:
-- two more than the limit is fuel enough for that.
pub parse_delays_lem :
    (max_retries : ℕ) (backoff : List ℕ)
    → backoff ≢ []
    → (ds : List ℕ) × (parse_delays (max_retries + 2) 1 max_retries backoff ≡ some ds)
      × (length ds ≡ max_retries)
parse_delays_lem m b ne =
    let (ds, e, n) = parse_delays_from (m + 2) 1 m b (omega arith) ne (omega arith) (omega arith) in
    (ds, e, omega arith)

-- A transfer is decided on after every attempt from the first on: three retries after 1, 5 and 15
-- minutes in RETRY_WAIT, and from the fourth attempt on PENDING_SYNC and a notice to the
-- administrator. The state machine of the transfer allows either state after SYNCING.
pub next_sync_attempt_lem :
    (attempts : ℕ)
    → 1 ≤ attempts
    → (d : SyncRetryDecision) × (next_sync_attempt attempts ≡ ok d)
      × (d.delay_seconds ≡ get_elem? sync_backoff_seconds (attempts - 1))
      × (d.retry ≡ leb attempts 3)
      × (d.notify_admin ≡ not d.retry)
      × (is_ok (advance_sync syncing d.state) ≡ true)
unfolding next_sync_attempt advance_sync
next_sync_attempt_lem zero h = absurd (omega arith)
next_sync_attempt_lem (suc zero) h = (_, refl, refl, refl, refl, refl)
next_sync_attempt_lem (suc (suc zero)) h = (_, refl, refl, refl, refl, refl)
next_sync_attempt_lem (suc (suc (suc zero))) h = (_, refl, refl, refl, refl, refl)
next_sync_attempt_lem (suc (suc (suc (suc n)))) h = (
  record {
    attempts_done = suc (suc (suc (suc n)));
    retry = false;
    delay_seconds = none;
    notify_admin = true;
    state = pending_sync;
    reason = sync_exhausted;
  },
  ground arith,
  ground arith,
  ground arith,
  refl,
  refl,
)
