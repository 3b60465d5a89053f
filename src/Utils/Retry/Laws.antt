-- ===== src/Utils/Retry/Laws.antt =====
-- What DoWithRetry and BackoffDuration (internal/utils/retry.go) promise.
use exotel_monitoring_platfo.Prelude.{
  ℕ, zero, suc, ◌+◌, ◌*◌, ◌/◌, ◌^◌, ◌≤◌, ◌<◌, ◌≡◌, refl, ℤ, pos, negsuc, Bool, false, Option, none,
  some, if◌then◌else◌, ltb, Bool-cases, inl, inr, ◌⊎◌, arith,
}
use exotel_monitoring_platfo.Utils.Retry.{
  RetryConfig, backoff_ms, Outcome, succeeded, retry, stop, after_call, attempts, do_with_retry,
}

-- k / 2^53 of m is at most m, which a draw below 2^53 does not exceed.
scaled_le : (k m : ℕ) → k < 2 ^ 53 → k * m / 2 ^ 53 ≤ m
scaled_le k m h = grind arith

-- The delay never passes the cap nor the doubled base delay, for any draw of the generator.
pub backoff_bounded :
    (attempt : ℕ) (cfg : RetryConfig) (k : ℕ)
    → k < 2 ^ 53
    → (backoff_ms attempt cfg k ≤ cfg.max_delay_ms)
      × (backoff_ms attempt cfg k ≤ cfg.base_delay_ms * 2 ^ attempt)
unfolding backoff_ms
backoff_bounded attempt cfg k h =
    elim (Bool-cases (ltb cfg.max_delay_ms (cfg.base_delay_ms * 2 ^ attempt))) [
      | inl e ↦ rw e (ground (arith, scaled_le k cfg.max_delay_ms h))
      | inr e ↦ rw e (ground (arith, scaled_le k (cfg.base_delay_ms * 2 ^ attempt) h))
    ]

module _ {S E : Type 0} (cancelled : ℕ → Bool) (ctx_err : E) (fn : S → Outcome E × S) where
  after_call_nil :
      (r : Outcome E × S) (next : E → S → Option E × S) (s' : S)
      → after_call r next ≡ (none, s')
      → (r ≡ (succeeded, s')) ⊎ ((e : E) × (s1 : S) × (next e s1 ≡ (none, s')))
  after_call_nil (succeeded, s1) next s' h = inl (cc)
  after_call_nil (retry e, s1) next s' h = inr (e, s1, h)
  after_call_nil (stop e, s1) next s' h = cc

  -- A nil error, behind an error that was kept, means that some call succeeded.
  attempts_nil :
      (left attempt : ℕ) (last : Option E) (s s' : S)
      → attempts cancelled ctx_err fn left attempt last s ≡ (none, s')
      → ((last ≡ none) × (left ≡ 0)) ⊎ ((at : S) × (fn at ≡ (succeeded, s')))
  unfolding attempts
  attempts_nil zero attempt last s s' h = inl (cc, refl)
  attempts_nil (suc left) attempt last s s' h =
      elim (Bool-cases (if ltb 0 attempt then cancelled attempt else false)) [
        | inl done ↦ cc (rw (done, attempts) at h)
        | inr on ↦ elim (after_call_nil (fn s) _ s' (rw (on, attempts) at h)) [
          | inl e ↦ inr (s, e)
          | inr (e, s1, g) ↦ elim (attempts_nil left (suc attempt) (some e) s1 s' g) [
            | inl (never, z) ↦ cc never
            | inr found ↦ inr found
          ]
        ]
      ]

  -- DoWithRetry returns nil only after a call that succeeded, whose state is the result, or with no
  -- call at all, for a negative MaxRetries.
  pub do_with_retry_nil :
      (cfg : RetryConfig) (s s' : S)
      → do_with_retry cancelled ctx_err fn cfg s ≡ (none, s')
      → ((at : S) × (fn at ≡ (succeeded, s'))) ⊎ ((n : ℕ) × (cfg.max_retries ≡ negsuc n) × (s' ≡ s))
  unfolding do_with_retry
  do_with_retry_nil cfg s s' h = split cfg.max_retries refl
    where
      split :
          (m : ℤ)
          → cfg.max_retries ≡ m
          → ((at : S) × (fn at ≡ (succeeded, s')))
            ⊎ ((n : ℕ) × (cfg.max_retries ≡ negsuc n) × (s' ≡ s))
      split (pos n) e = elim (attempts_nil (suc n) 0 none s s' (rw (e, do_with_retry) at h)) [
        | inl (a, z) ↦ absurd (omega arith)
        | inr found ↦ inl found
      ]
      split (negsuc n) e = inr (n, e, cc (rw (e, do_with_retry) at h))

  -- A negative MaxRetries reports success without a call.
  pub do_with_retry_negative :
      (cfg : RetryConfig) (n : ℕ) (s : S)
      → cfg.max_retries ≡ negsuc n
      → do_with_retry cancelled ctx_err fn cfg s ≡ (none, s)
  unfolding do_with_retry
  do_with_retry_negative cfg n s e = rw (e, do_with_retry)

  module _ (calls : S → ℕ) (one_more : (s : S) → calls (fn s).1 ≡ suc (calls s)) where
    after_call_calls :
        (r : Outcome E × S) (next : E → S → Option E × S) (top : ℕ)
        → calls r.1 ≤ top
        → ((e : E) → calls r.1 ≤ calls (next e r.1).1)
        → ((e : E) → calls (next e r.1).1 ≤ top)
        → (calls r.1 ≤ calls (after_call r next).1) × (calls (after_call r next).1 ≤ top)
    after_call_calls (succeeded, s1) next top h low high = (omega arith, h)
    after_call_calls (retry e, s1) next top h low high = (low e, high e)
    after_call_calls (stop e, s1) next top h low high = (omega arith, h)

    attempts_calls :
        (left attempt : ℕ) (last : Option E) (s : S)
        → (calls s ≤ calls (attempts cancelled ctx_err fn left attempt last s).1)
          × (calls (attempts cancelled ctx_err fn left attempt last s).1 ≤ calls s + left)
    unfolding attempts
    attempts_calls zero attempt last s = (omega arith, omega arith)
    attempts_calls (suc left) attempt last s =
        elim (Bool-cases (if ltb 0 attempt then cancelled attempt else false)) [
          | inl done ↦ rw (done, attempts) (omega arith, omega arith)
          | inr on ↦
              let bounds =
                after_call_calls (fn s)
                  (λ e s'. attempts cancelled ctx_err fn left (suc attempt) (some e) s')
                  (calls s + suc left) (omega (arith, one_more s))
                  (λ e. (attempts_calls left (suc attempt) (some e) (fn s).1).0)
                  (λ e.
                    omega
                      (arith, attempts_calls left (suc attempt) (some e) (fn s).1, one_more s)) in
              rw (on, attempts) (omega (arith, bounds, one_more s), omega (arith, bounds))
        ]

    -- Where every call adds one to a count, for MaxRetries = n >= 0 the function is called at least
    -- once and at most n + 1 times.
    pub do_with_retry_calls :
        (cfg : RetryConfig) (n : ℕ) (s : S)
        → cfg.max_retries ≡ pos n
        → (calls s < calls (do_with_retry cancelled ctx_err fn cfg s).1)
          × (calls (do_with_retry cancelled ctx_err fn cfg s).1 ≤ calls s + suc n)
    unfolding do_with_retry attempts
    do_with_retry_calls cfg n s e =
        let bounds =
          after_call_calls (fn s) (λ e s'. attempts cancelled ctx_err fn n 1 (some e) s')
            (calls s + suc n) (omega (arith, one_more s))
            (λ e. (attempts_calls n 1 (some e) (fn s).1).0)
            (λ e. omega (arith, attempts_calls n 1 (some e) (fn s).1, one_more s)) in
        rw (e, do_with_retry) (omega (arith, bounds, one_more s), omega (arith, bounds))

-- A first call that succeeds is the only one.
pub do_with_retry_first :
    {S E : Type 0} (cancelled : ℕ → Bool) (ctx_err : E) (fn : S → Outcome E × S) (cfg : RetryConfig)
    (n : ℕ) (s s' : S)
    → cfg.max_retries ≡ pos n
    → fn s ≡ (succeeded, s')
    → do_with_retry cancelled ctx_err fn cfg s ≡ (none, s')
unfolding do_with_retry attempts
do_with_retry_first cancelled ctx_err fn cfg n s s' retries call =
    rw (retries, do_with_retry, attempts, call) refl

-- What every call keeps, the loop keeps.
module _ {S E : Type 0} (cancelled : ℕ → Bool) (ctx_err : E) (fn : S → Outcome E × S)
    (P : S → Type 0) (step : (s : S) → P s → P (fn s).1) where
  after_call_keeps :
      (r : Outcome E × S) (next : E → S → Option E × S)
      → ((e : E) (s : S) → P s → P (next e s).1)
      → P r.1
      → P (after_call r next).1
  after_call_keeps (succeeded, s) next keeps h = h
  after_call_keeps (retry e, s) next keeps h = keeps e s h
  after_call_keeps (stop e, s) next keeps h = h

  attempts_keeps :
      (left attempt : ℕ) (last : Option E) (s : S)
      → P s
      → P (attempts cancelled ctx_err fn left attempt last s).1
  unfolding attempts
  attempts_keeps zero attempt last s h = h
  attempts_keeps (suc left) attempt last s h =
      elim (Bool-cases (if ltb 0 attempt then cancelled attempt else false)) [
        | inl done ↦ rw (done, attempts) h
        | inr on ↦
            rw (on, attempts)
              (after_call_keeps (fn s) _ (λ e s' k. attempts_keeps left (suc attempt) (some e) s' k)
                (step s h))
      ]

  pub do_with_retry_keeps :
      (cfg : RetryConfig) (s : S) → P s → P (do_with_retry cancelled ctx_err fn cfg s).1
  unfolding do_with_retry attempts
  do_with_retry_keeps cfg s h =
      elim cfg.max_retries
        as (λ m. P (do_with_retry cancelled ctx_err fn (record cfg { max_retries = m }) s).1) [
          | pos n ↦ attempts_keeps (suc n) 0 none s h
          | negsuc n ↦ h
        ]
