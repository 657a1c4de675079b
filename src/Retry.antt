-- ===== src/Retry.antt =====
-- backend/src/kontur/application/retry_policy.py: how often, and when, a failed step is tried again.
pub mod Schedule
use kontur.Prelude.{
  ℕ, ◌-◌, min, Bool, true, false, Option, none, some, List, [], ◌∷◌, length, get_elem?, Result, ok,
  ◌>>=◌, ◌>>◌, raise_if, ltb, if◌then◌else◌,
}
use Prim.Native.Nat.{◌/◌}
use kontur.Prelude.{or_raise}
use kontur.Prelude.Text.Decimal.{decimal}
use kontur.Domain.Status.{SyncState, pending_sync, retry_wait}

-- The two exceptions: an argument that is out of range, and `backoff[i]` past the end.
pub data RetryError : Type 0 where
  value_error index_error : RetryError

abbrev pub max_parse_retries : ℕ
max_parse_retries = 2

abbrev pub parse_backoff_seconds : List ℕ
parse_backoff_seconds = 30 ∷ 120 ∷ []

abbrev pub sync_backoff_seconds : List ℕ
sync_backoff_seconds = 60 ∷ 300 ∷ 900 ∷ []

abbrev pub max_sync_retries : ℕ
max_sync_retries = length sync_backoff_seconds

-- The texts of the source with numbers filled in.
pub data Reason : Type 0 where
  parse_exhausted : (max_retries : ℕ) → Reason
  parse_retry : (attempt max_retries delay : ℕ) → Reason
  sync_exhausted : Reason
  sync_retry : (attempt max_retries minutes : ℕ) → Reason

pub record RetryDecision : Type 0 where
  pub attempts_done : ℕ
  pub retry : Bool
  pub delay_seconds : Option ℕ
  pub notify_admin : Bool
  pub reason : Reason

pub record SyncRetryDecision : Type 0 where
  pub attempts_done : ℕ
  pub retry : Bool
  pub delay_seconds : Option ℕ
  pub notify_admin : Bool
  pub state : SyncState
  pub reason : Reason

validate : ℕ → Result RetryError (Unit {0})
validate attempts_done = raise_if (ltb attempts_done 1) value_error

unfoldable pub next_parse_attempt : ℕ → ℕ → List ℕ → Result RetryError RetryDecision
unfolding validate
next_parse_attempt attempts_done max_retries backoff = do
  validate attempts_done
  if ltb max_retries attempts_done
      then ok (record {
        attempts_done = attempts_done;
        retry = false;
        delay_seconds = none;
        notify_admin = true;
        reason = parse_exhausted max_retries;
      })
      else do
        delay ←
            or_raise (get_elem? backoff (min (attempts_done - 1) (length backoff - 1))) index_error
        ok (record {
          attempts_done = attempts_done;
          retry = true;
          delay_seconds = some delay;
          notify_admin = false;
          reason = parse_retry attempts_done max_retries delay;
        })

unfoldable pub next_sync_attempt : ℕ → Result RetryError SyncRetryDecision
unfolding validate
next_sync_attempt attempts_done = do
  validate attempts_done
  if ltb max_sync_retries attempts_done
      then ok (record {
        attempts_done = attempts_done;
        retry = false;
        delay_seconds = none;
        notify_admin = true;
        state = pending_sync;
        reason = sync_exhausted;
      })
      else do
        delay ← or_raise (get_elem? sync_backoff_seconds (attempts_done - 1)) index_error
        ok (record {
          attempts_done = attempts_done;
          retry = true;
          delay_seconds = some delay;
          notify_admin = false;
          state = retry_wait;
          reason = sync_retry attempts_done max_sync_retries (delay / 60);
        })
