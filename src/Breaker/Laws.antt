-- ===== src/Breaker/Laws.antt =====
-- The breaker over calls that follow one another.
use fpl_radar.Prelude.{
  ℕ, zero, suc, ◌+◌, ◌≤◌, ◌<◌, ◌≡◌, refl, ◌≢◌, ◌↔◌, ◌⊎◌, Bool, true, false, arith,
}
use fpl_radar.Breaker.{
  closed, open_circuit, half_open, BreakerConfig, Breaker, read_state, rejected, admitted, begin,
  CallOutcome, succeeded, upstream_failure, other_error, finish,
}

-- A call is rejected exactly while the breaker is open and its timeout has not passed, or while it is
-- open or half open and a probe is on its way.
begin_rejected_iff :
    (cfg : BreakerConfig) (now : ℕ) (b : Breaker)
    → ((c : Breaker) × (begin cfg now b ≡ rejected c)) ↔ (
        ((b.state ≡ open_circuit) × (now < b.opened_at + cfg.reset_timeout_ms))
        ⊎ ((b.state ≡ open_circuit) × (b.probe_in_flight ≡ true))
        ⊎ ((b.state ≡ half_open) × (b.probe_in_flight ≡ true)))
unfolding begin
begin_rejected_iff cfg now b = (λ (c, e). ground arith, λ h. (read_state cfg now b, ground arith))

-- A whole call with no other call between: what the breaker becomes, and whether the call was made.
pub execute : BreakerConfig → ℕ → ℕ → CallOutcome → Breaker → Breaker × Bool
unfolding begin finish
execute cfg asked answered outcome b = elim (begin cfg asked b) [
  | rejected c ↦ (c, false)
  | admitted is_probe c ↦ (finish cfg answered is_probe outcome c, true)
]

-- `n` calls in a row, each answered by an upstream failure at time `now`.
pub fail_times : BreakerConfig → ℕ → ℕ → Breaker → Breaker
unfolding execute
fail_times cfg now zero b = b
fail_times cfg now (suc n) b = fail_times cfg now n (execute cfg now now upstream_failure b).0

-- An open breaker with no probe on its way makes no call before the timeout; after it, one probe is
-- made, whose answer closes the breaker with its count at 0 or, if the upstream failed, opens it anew.
pub recovers_by_probe :
    (cfg : BreakerConfig) (asked answered : ℕ) (outcome : CallOutcome) (b : Breaker)
    → b.state ≡ open_circuit
    → b.probe_in_flight ≡ false
    → (asked < b.opened_at + cfg.reset_timeout_ms
        → execute cfg asked answered outcome b ≡ (b, false))
      × (b.opened_at + cfg.reset_timeout_ms ≤ asked
          → let (c, called) = execute cfg asked answered outcome b in
            (called ≡ true)
            × (c.probe_in_flight ≡ false)
            × ((outcome ≡ upstream_failure) → (c.state ≡ open_circuit) × (c.opened_at ≡ answered))
            × ((outcome ≢ upstream_failure) → (c.state ≡ closed) × (c.failures ≡ 0)))
unfolding execute
recovers_by_probe cfg asked answered succeeded b s p = (
  λ h. ground arith,
  λ h. (ground arith, ground arith, λ e. cc, λ e. (ground arith, ground arith)),
)
recovers_by_probe cfg asked answered upstream_failure b s p = (
  λ h. ground arith,
  λ h. (ground arith, ground arith, λ e. (ground arith, ground arith), λ e. absurd (e refl)),
)
recovers_by_probe cfg asked answered other_error b s p = (
  λ h. ground arith,
  λ h. (ground arith, ground arith, λ e. cc, λ e. (ground arith, ground arith)),
)
