-- ===== src/Utils/Retry.antt =====
-- internal/utils/retry.go: the back-off delay and DoWithRetry. A function to retry is a step on a
-- state S that says whether it failed; what ctx.Done() does at an attempt is an argument.
pub mod Laws
use exotel_monitoring_platfo.Prelude.{
  ℕ, zero, suc, ◌+◌, ◌*◌, ◌/◌, ◌^◌, ℤ, pos, negsuc, Bool, true, false, List, [], ◌∷◌, Option, none,
  some, if◌then◌else◌, ltb, ◌==◌, min,
}

pub record RetryConfig : Type 0 where
  pub max_retries : ℤ
  pub base_delay_ms : ℕ
  pub max_delay_ms : ℕ

abbrev pub default_retry_config : RetryConfig
default_retry_config = record { max_retries = pos 3; base_delay_ms = 1000; max_delay_ms = 30000 }

-- IsRetryable
unfoldable pub is_retryable : ℕ → Bool
is_retryable status =
    if status == 429
    then true
    else if status == 500
    then true
    else if status == 502
    then true
    else if status == 503
    then true
    else status == 504

-- BackoffDuration, in milliseconds. rand.Float64() is k / 2^53 for a draw k below 2^53, and the
-- conversion to a Duration drops the fraction.
unfoldable pub backoff_ms : ℕ → RetryConfig → ℕ → ℕ
backoff_ms attempt cfg k =
    let doubled = cfg.base_delay_ms * 2 ^ attempt in
    let max_ms = if ltb cfg.max_delay_ms doubled then cfg.max_delay_ms else doubled in
    k * max_ms / 2 ^ 53

-- The error that fn returns: nil, one to retry, or one to stop at.
pub data Outcome (E : Type 0) : Type 0 where
  succeeded : Outcome E
  retry stop : E → Outcome E

-- shouldRetry, err := fn(): return nil, stop at the error, or go on with it
abbrev pub after_call : {S E : Type 0} → Outcome E × S → (E → S → Option E × S) → Option E × S
after_call (succeeded, s') next = (none, s')
after_call (retry e, s') next = next e s'
after_call (stop e, s') next = (some e, s')

module _ {S E : Type 0} (cancelled : ℕ → Bool) (ctx_err : E) (fn : S → Outcome E × S) where
  -- the rounds of the loop from an attempt on, of which `left` remain; before every attempt but
  -- the first the wait may end by ctx.Done()
  unfoldable pub attempts : ℕ → ℕ → Option E → S → Option E × S
  attempts zero attempt last s = (last, s)
  attempts (suc left) attempt last s = elim (if ltb 0 attempt then cancelled attempt else false) [
    | true ↦ (some ctx_err, s)
    | false ↦ after_call (fn s) (λ e s'. attempts left (suc attempt) (some e) s')
  ]

  -- MaxRetries + 1 rounds, none at all for a negative MaxRetries; `none` is a nil error
  unfoldable pub do_with_retry : RetryConfig → S → Option E × S
  unfolding attempts
  do_with_retry cfg s = elim cfg.max_retries [
    | pos n ↦ attempts (suc n) 0 none s
    | negsuc n ↦ attempts 0 0 none s
  ]
