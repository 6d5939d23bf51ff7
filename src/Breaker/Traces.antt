-- ===== src/Breaker/Traces.antt =====
-- Calls that overlap: any number are on their way at once, and each answer arrives at any time.
use fpl_radar.Prelude.{ℕ, suc, ◌-◌, ◌≤◌, ◌<◌, ◌≡◌, Bool, true, false, arith, ◌≢◌, ◌↔◌}
use fpl_radar.Breaker.{
  closed, half_open, BreakerConfig, Breaker, rejected, admitted, begin, CallOutcome, finish,
  new_breaker,
}

-- The breaker, and how many probes and other calls were sent and not yet answered.
pub record World : Type 0 where
  pub breaker : Breaker
  pub probes : ℕ
  pub plain : ℕ

abbrev sent : Bool → Breaker → World → World
sent true b w = record { breaker = b; probes = suc w.probes; plain = w.plain }
sent false b w = record { breaker = b; probes = w.probes; plain = suc w.plain }

-- The clock of each step is free: the bound on probes does not rest on time moving forward.
pub data Step (cfg : BreakerConfig) : World → World → Type 0 where
  reject :
      (w : World) (now : ℕ) (b : Breaker)
      → begin cfg now w.breaker ≡ rejected b
      → Step cfg w (record w { breaker = b })
  send :
      (w : World) (now : ℕ) (is_probe : Bool) (b : Breaker)
      → begin cfg now w.breaker ≡ admitted is_probe b
      → Step cfg w (sent is_probe b w)
  answer_probe :
      (w : World) (now : ℕ) (outcome : CallOutcome)
      → 0 < w.probes
      → Step cfg w
          (record w { breaker = finish cfg now true outcome w.breaker; probes = w.probes - 1 })
  answer_plain :
      (w : World) (now : ℕ) (outcome : CallOutcome)
      → 0 < w.plain
      → Step cfg w
          (record w { breaker = finish cfg now false outcome w.breaker; plain = w.plain - 1 })

pub data Reach (cfg : BreakerConfig) (s : World) : World → Type 0 where
  here : Reach cfg s s
  next : {t u : World} → Reach cfg s t → Step cfg t u → Reach cfg s u

-- The flag is set exactly while one probe is on its way, and a closed breaker is below its threshold.
pub record Inv (cfg : BreakerConfig) (w : World) : Type 0 where
  pub flag_set : w.breaker.probe_in_flight ≡ true → w.probes ≡ 1
  pub flag_clear : w.breaker.probe_in_flight ≡ false → w.probes ≡ 0
  pub below : w.breaker.state ≡ closed → w.breaker.failures < cfg.failure_threshold

begin_rejected :
    (cfg : BreakerConfig) (now : ℕ) (b c : Breaker)
    → begin cfg now b ≡ rejected c
    → (c.probe_in_flight ≡ b.probe_in_flight) × (c.state ≢ closed)
unfolding begin
begin_rejected cfg now b c e = (ground arith, λ q. ground arith)

begin_probe :
    (cfg : BreakerConfig) (now : ℕ) (b c : Breaker)
    → begin cfg now b ≡ admitted true c
    → (b.probe_in_flight ≡ false) × (c.probe_in_flight ≡ true) × (c.state ≡ half_open)
unfolding begin
begin_probe cfg now b c e = (ground arith, ground arith, ground arith)

begin_plain :
    (cfg : BreakerConfig) (now : ℕ) (b c : Breaker)
    → begin cfg now b ≡ admitted false c
    → (c ≡ b) × (b.state ≡ closed)
unfolding begin
begin_plain cfg now b c e = (ground arith, ground arith)

finish_probe :
    (cfg : BreakerConfig) (now : ℕ) (o : CallOutcome) (b : Breaker)
    → 0 < cfg.failure_threshold
    → (b.state ≡ closed → b.failures < cfg.failure_threshold)
    → ((finish cfg now true o b).probe_in_flight ≡ false)
      × ((finish cfg now true o b).state ≡ closed
          → (finish cfg now true o b).failures < cfg.failure_threshold)
unfolding finish
finish_probe cfg now o b t h = (ground arith, λ e. ground arith)

finish_plain :
    (cfg : BreakerConfig) (now : ℕ) (o : CallOutcome) (b : Breaker)
    → 0 < cfg.failure_threshold
    → (b.state ≡ closed → b.failures < cfg.failure_threshold)
    → ((finish cfg now false o b).probe_in_flight ≡ b.probe_in_flight)
      × ((finish cfg now false o b).state ≡ closed
          → (finish cfg now false o b).failures < cfg.failure_threshold)
unfolding finish
finish_plain cfg now o b t h = (ground arith, λ e. ground arith)

Step-Inv :
    (cfg : BreakerConfig) {v w : World}
    → 0 < cfg.failure_threshold
    → Step cfg v w
    → Inv cfg v
    → Inv cfg w
Step-Inv cfg t (reject w now b e) h = ground (arith, begin_rejected cfg now w.breaker b e)
Step-Inv cfg t (send w now true b e) h = ground (arith, begin_probe cfg now w.breaker b e)
Step-Inv cfg t (send w now false b e) h = ground (arith, begin_plain cfg now w.breaker b e)
Step-Inv cfg t (answer_probe w now o p) h =
    ground (arith, finish_probe cfg now o w.breaker t h.below)
Step-Inv cfg t (answer_plain w now o p) h =
    ground (arith, finish_plain cfg now o w.breaker t h.below)

abbrev pub idle : World
idle = record { breaker = new_breaker; probes = 0; plain = 0 }

new-Inv : (cfg : BreakerConfig) → 0 < cfg.failure_threshold → Inv cfg idle
unfolding new_breaker
new-Inv cfg t = ground arith

Reach-Inv :
    (cfg : BreakerConfig) {w : World} → 0 < cfg.failure_threshold → Reach cfg idle w → Inv cfg w
Reach-Inv cfg t here = new-Inv cfg t
Reach-Inv cfg t (next r s) = Step-Inv cfg t s (Reach-Inv cfg t r)

-- With a positive threshold, however calls overlap, never more than one probe is on its way, and its flag is set exactly then; and
-- a closed breaker has counted fewer failures in a row than its threshold.
pub one_probe :
    (cfg : BreakerConfig) (w : World)
    → 0 < cfg.failure_threshold
    → Reach cfg idle w
    → (w.probes ≤ 1)
      × ((w.breaker.probe_in_flight ≡ true) ↔ (w.probes ≡ 1))
      × (w.breaker.state ≡ closed → w.breaker.failures < cfg.failure_threshold)
one_probe cfg w t r =
    let h = Reach-Inv cfg t r in (ground arith, (h.flag_set, λ e. ground arith), h.below)
