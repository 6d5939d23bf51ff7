-- ===== src/FplError.antt =====
-- server/src/fpl/errors.js: the kinds of failure of the FPL client and which of them are retried.
-- `parseRetryAfter` reads text with the engine's number and date parsers and is not modelled.
use fpl_radar.Prelude.{
  ℕ, ◌≤◌, ◌≡◌, ◌↔◌, ◌⊎◌, Bool, true, false, if◌then◌else◌, leb, ◌==◌, Option, arith,
}

pub data FplErrorKind : Type 0 where
  timeout network rate_limited upstream_unavailable not_found : FplErrorKind
  http invalid_response validation circuit_open : FplErrorKind

-- `RETRYABLE.has(kind)`: the getters `retryable` and `upstreamFailure`.
abbrev pub is_retryable : FplErrorKind → Bool
is_retryable timeout = true
is_retryable network = true
is_retryable rate_limited = true
is_retryable upstream_unavailable = true
is_retryable _ = false

pub record FplError : Type 0 where
  pub kind : FplErrorKind
  pub retry_after_ms : Option ℕ

unfoldable classify_status : ℕ → FplErrorKind
classify_status status =
    if status == 404
    then not_found
    else if status == 429
    then rate_limited
    else if leb 500 status
    then upstream_unavailable
    else http

-- An HTTP status is retried exactly when it is 429 or a server error.
classify_status-retryable :
    (status : ℕ)
    → (is_retryable (classify_status status) ≡ true) ↔ ((status ≡ 429) ⊎ (500 ≤ status))
unfolding classify_status
classify_status-retryable status = (λ h. ground arith, λ h. ground arith)
