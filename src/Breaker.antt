-- ===== src/Breaker.antt =====
-- server/src/fpl/circuitBreaker.js: `execute` awaits the call, so it is two steps, `begin` before the
-- await and `finish` after it, between which other calls run. The clock is an argument.
pub mod Laws
pub mod Traces
use fpl_radar.Prelude.{
  ℕ, ◌+◌, Bool, true, false, ◌&&◌, ◌||◌, not, List, [], ◌∷◌, if◌then◌else◌, leb,
}

pub data CircuitState : Type 0 where
  closed open_circuit half_open : CircuitState

pub record BreakerConfig : Type 0 where
  pub failure_threshold : ℕ
  pub reset_timeout_ms : ℕ

abbrev pub default_breaker : BreakerConfig
default_breaker = record { failure_threshold = 5; reset_timeout_ms = 30000 }

-- `changes` is what `onStateChange` was told, latest first.
pub record Breaker : Type 0 where
  pub state : CircuitState
  pub failures : ℕ
  pub opened_at : ℕ
  pub probe_in_flight : Bool
  pub changes : List (CircuitState × CircuitState)

unfoldable pub new_breaker : Breaker
new_breaker = record {
  state = closed;
  failures = 0;
  opened_at = 0;
  probe_in_flight = false;
  changes = [];
}

-- `#transition(next)`
abbrev transition_from : CircuitState → CircuitState → ℕ → Breaker → Breaker
transition_from closed closed now b = b
transition_from open_circuit open_circuit now b = b
transition_from half_open half_open now b = b
transition_from prev open_circuit now b = record b {
  state = open_circuit;
  opened_at = now;
  changes = (prev, open_circuit) ∷ b.changes;
}
transition_from prev closed now b = record b {
  state = closed;
  failures = 0;
  changes = (prev, closed) ∷ b.changes;
}
transition_from prev half_open now b = record b {
  state = half_open;
  changes = (prev, half_open) ∷ b.changes;
}

abbrev transition : CircuitState → ℕ → Breaker → Breaker
transition next now b = transition_from b.state next now b

abbrev is_open : CircuitState → Bool
is_open open_circuit = true
is_open _ = false

abbrev is_half_open : CircuitState → Bool
is_half_open half_open = true
is_half_open _ = false

-- The getter `state`, which moves an open breaker on once the timeout has passed.
unfoldable pub read_state : BreakerConfig → ℕ → Breaker → Breaker
read_state cfg now b =
    if is_open b.state && leb (b.opened_at + cfg.reset_timeout_ms) now
    then transition half_open now b
    else b

pub data Admission : Type 0 where
  rejected : Breaker → Admission
  admitted : (is_probe : Bool) → Breaker → Admission

abbrev admit : Breaker → Admission
admit b =
    if is_open b.state || (is_half_open b.state && b.probe_in_flight)
    then rejected b
    else if is_half_open b.state
    then admitted true (record b { probe_in_flight = true })
    else admitted false b

-- `execute` up to the await. A rejected call throws CIRCUIT_OPEN without a request.
unfoldable pub begin : BreakerConfig → ℕ → Breaker → Admission
unfolding read_state
begin cfg now b = admit (read_state cfg now b)

-- How the awaited call ended; `isFailure` tells the two kinds of error apart.
pub data CallOutcome : Type 0 where
  succeeded upstream_failure other_error : CallOutcome

abbrev settle : BreakerConfig → ℕ → Bool → CallOutcome → Breaker → Breaker
settle cfg now is_probe succeeded b = transition closed now (record b { failures = 0 })
settle cfg now is_probe upstream_failure b =
    let b' = record b { failures = b.failures + 1 } in
    if is_probe || leb cfg.failure_threshold b'.failures then transition open_circuit now b' else b'
settle cfg now is_probe other_error b = if is_probe then transition closed now b else b

-- `if (isProbe) this.#probeInFlight = false`
abbrev release_probe : Bool → Breaker → Breaker
release_probe is_probe b = if is_probe then record b { probe_in_flight = false } else b

-- `execute` from the await on.
unfoldable pub finish : BreakerConfig → ℕ → Bool → CallOutcome → Breaker → Breaker
finish cfg now is_probe outcome b = release_probe is_probe (settle cfg now is_probe outcome b)
