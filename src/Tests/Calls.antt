-- ===== src/Tests/Calls.antt =====
-- Runs of the FPL client's error kinds, retries and circuit breaker (server/src/fpl/errors.js, retry.js
-- and circuitBreaker.js).
use fpl_radar.Prelude.{
  ℕ, zero, suc, ◌+◌, ◌≤◌, ◌<◌, ◌≡◌, refl, ◌≢◌, ◌↔◌, true, false, none, some, [], ◌∷◌, All, length,
  arith,
}
use native.Mathlib.Nat.{le_refl}
use fpl_radar.FplError.{timeout}
use fpl_radar.Retry.{Attempt, ok, err, default_retry, with_retry, delay_after}
use fpl_radar.Retry.Laws.{Retried, Ends, with_retry_lem}
use fpl_radar.Breaker.{
  Breaker, default_breaker, new_breaker, begin, open_circuit, closed, upstream_failure, succeeded,
}
use fpl_radar.Breaker.Laws.{execute, recovers_by_probe}
use fpl_radar.Breaker.Traces.{idle, Reach, here, next, send, one_probe}

-- The whole ceiling.
abbrev no_jitter : ℕ → ℕ → ℕ
no_jitter attempt ceiling = ceiling

-- Two timeouts, then a value.
abbrev third_time : ℕ → Attempt ℕ
third_time zero = ok 0
third_time (suc zero) = err (record { kind = timeout; retry_after_ms = none })
third_time (suc (suc zero)) = err (record { kind = timeout; retry_after_ms = some 90000 })
third_time n = ok n

delays_slept : (with_retry no_jitter third_time default_retry).delays ≡ 500 ∷ 8000 ∷ []
unfolding with_retry delay_after
delays_slept = refl

with_retry_lem_example :
    let r = with_retry no_jitter third_time default_retry in
    (r.attempts ≡ 1 + length r.delays)
    × (r.attempts ≤ 3)
    × (r.outcome ≡ third_time r.attempts)
    × Ends no_jitter third_time 3 r.attempts
    × ((n : ℕ) → 1 ≤ n → n < r.attempts → Retried no_jitter third_time n)
    × All (λ d. d ≤ 8000) r.delays
with_retry_lem_example =
    with_retry_lem no_jitter third_time (λ n c. le_refl c) default_retry (omega arith)

abbrev opened : Breaker
opened = record {
  state = open_circuit;
  failures = 5;
  opened_at = 1000;
  probe_in_flight = false;
  changes = (closed, open_circuit) ∷ [];
}

recovers_by_probe_example :
    (40000 < 1000 + 30000 → execute default_breaker 40000 40100 succeeded opened ≡ (opened, false))
    × (1000 + 30000 ≤ 40000
        → let (c, called) = execute default_breaker 40000 40100 succeeded opened in
          (called ≡ true)
          × (c.probe_in_flight ≡ false)
          × ((succeeded ≡ upstream_failure) → (c.state ≡ open_circuit) × (c.opened_at ≡ 40100))
          × ((succeeded ≢ upstream_failure) → (c.state ≡ closed) × (c.failures ≡ 0)))
recovers_by_probe_example = recovers_by_probe default_breaker 40000 40100 succeeded opened refl refl

one_sent : Reach default_breaker idle (record { breaker = new_breaker; probes = 0; plain = 1 })
unfolding begin new_breaker
one_sent = next here (send idle 7 false new_breaker refl)

one_probe_example :
    (0 ≤ 1)
    × ((new_breaker.probe_in_flight ≡ true) ↔ (◌≡◌ {A = ℕ} 0 1))
    × (new_breaker.state ≡ closed → new_breaker.failures < 5)
one_probe_example =
    one_probe default_breaker (record { breaker = new_breaker; probes = 0; plain = 1 })
      (omega arith) one_sent
