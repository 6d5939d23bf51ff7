-- ===== src/Retry.antt =====
-- server/src/fpl/retry.js: retries with exponential backoff. `random()` and `Math.round` are one
-- parameter, `jitter`, which rounds a random part of the ceiling; `sleep` only passes time, so the
-- delays are listed in the result.
pub mod Laws
use fpl_radar.Prelude.{
  ℕ, zero, suc, ◌+◌, ◌-◌, ◌*◌, ◌^◌, ◌≤◌, ◌<◌, ◌≡◌, refl, ap, ◌∙◌, ◌⊎◌, inl, inr, Bool, true, false,
  Option, none, some, List, [], ◌∷◌, if◌then◌else◌, ltb, arith, length, All,
}
use fpl_radar.FplError.{FplError, is_retryable}

pub record RetryPolicy : Type 0 where
  pub max_attempts : ℕ
  pub base_delay_ms : ℕ
  pub max_delay_ms : ℕ

abbrev pub default_retry : RetryPolicy
default_retry = record { max_attempts = 3; base_delay_ms = 500; max_delay_ms = 8000 }

abbrev pub lesser : ℕ → ℕ → ℕ
lesser a b = if ltb b a then b else a

-- `ok` is the value, `err` what was thrown.
pub data Attempt (A : Type 0) : Type 0 where
  ok : A → Attempt A
  err : FplError → Attempt A

-- The outcome, the attempts made, and the delays slept, in order.
pub record Run (A : Type 0) : Type 0 where
  pub outcome : Attempt A
  pub attempts : ℕ
  pub delays : List ℕ

module _ (jitter : ℕ → ℕ → ℕ) where
  -- `Math.min(maxDelayMs, baseDelayMs * 2 ** (attempt - 1))`, and the random part of it.
  unfoldable pub backoff_delay : ℕ → RetryPolicy → ℕ
  backoff_delay attempt p =
      jitter attempt (lesser p.max_delay_ms (p.base_delay_ms * 2 ^ (attempt - 1)))

  unfoldable pub delay_after : ℕ → RetryPolicy → FplError → ℕ
  unfolding backoff_delay
  delay_after attempt p e = elim e.retry_after_ms [
    | some ms ↦ lesser ms p.max_delay_ms
    | none ↦ backoff_delay attempt p
  ]

  module _ {A : Type 0} (fn : ℕ → Attempt A) where
    -- The loop at `attempt`, with the retries that are left: `attempt >= maxAttempts` is none left.
    unfoldable pub retry_loop : RetryPolicy → ℕ → ℕ → Run A
    retry_loop p zero attempt = record { outcome = fn attempt; attempts = attempt; delays = [] }
    retry_loop p (suc left) attempt = elim (fn attempt) [
      | ok a ↦ record { outcome = ok a; attempts = attempt; delays = [] }
      | err e ↦ elim (is_retryable e.kind) [
        | false ↦ record { outcome = err e; attempts = attempt; delays = [] }
        | true ↦
            let rest = retry_loop p left (attempt + 1) in
            record rest { delays = delay_after attempt p e ∷ rest.delays }
      ]
    ]

    unfoldable pub with_retry : RetryPolicy → Run A
    unfolding retry_loop
    with_retry p = retry_loop p (p.max_attempts - 1) 1
