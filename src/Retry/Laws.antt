-- ===== src/Retry/Laws.antt =====
-- The run of `withRetry` as a whole.
use fpl_radar.Prelude.{
  ℕ, zero, suc, ◌+◌, ◌-◌, ◌*◌, ◌^◌, ◌≤◌, ◌<◌, ◌≡◌, refl, sym, subst, ◌⊎◌, inl, inr, true, false,
  Option, none, some, arith, length, All, Bool-cases,
}
use native.Mathlib.Decide.{ℕ_discrete}
use fpl_radar.FplError.{FplError, is_retryable}
use fpl_radar.Retry.{
  RetryPolicy, lesser, Attempt, ok, err, Run, delay_after, retry_loop, with_retry,
}

module _ (jitter : ℕ → ℕ → ℕ) {A : Type 0} (fn : ℕ → Attempt A) where
  -- A failed attempt that is retried.
  abbrev pub Retried : ℕ → Type 0
  Retried n = (e : FplError) × (fn n ≡ err e) × (is_retryable e.kind ≡ true)

  -- An attempt after which nothing is retried: a value, an error of another kind, or the last one.
  abbrev pub Ends : ℕ → ℕ → Type 0
  Ends last n =
      ((a : A) × (fn n ≡ ok a))
      ⊎ ((e : FplError) × (fn n ≡ err e) × (is_retryable e.kind ≡ false))
      ⊎ (n ≡ last)

  pub record IsRun (p : RetryPolicy) (from last : ℕ) (r : Run A) : Type 0 where
    pub counted : r.attempts ≡ from + length r.delays
    pub within : r.attempts ≤ last
    pub result : r.outcome ≡ fn r.attempts
    pub ended : Ends last r.attempts
    pub earlier : (n : ℕ) → from ≤ n → n < r.attempts → Retried n
    pub capped : All (λ d. d ≤ p.max_delay_ms) r.delays

  module _ (jitter_small : (n c : ℕ) → jitter n c ≤ c) where
    delay_capped :
        (n : ℕ) (p : RetryPolicy) (e : FplError) → delay_after jitter n p e ≤ p.max_delay_ms
    unfolding delay_after
    delay_capped n p e = go e.retry_after_ms refl
      where
        go : (o : Option ℕ) → e.retry_after_ms ≡ o → delay_after jitter n p e ≤ p.max_delay_ms
        go none q =
            rw (q, delay_after)
              (ground
                (arith, jitter_small n (lesser p.max_delay_ms (p.base_delay_ms * 2 ^ (n - 1)))))
        go (some ms) q = rw (q, delay_after) (ground arith)

    loop-IsRun :
        (p : RetryPolicy) (left from last : ℕ)
        → last ≡ from + left
        → IsRun p from last (retry_loop jitter fn p left from)
    unfolding retry_loop
    loop-IsRun p zero from last e = record {
      counted = omega arith;
      within = omega arith;
      result = refl;
      ended = inr (inr (omega arith));
      earlier = λ n a b. absurd (omega arith);
      capped = tt;
    }
    loop-IsRun p (suc left) from last e =
        go (fn from) refl (loop-IsRun p left (from + 1) last (omega arith))
      where
        go :
            (x : Attempt A)
            → fn from ≡ x
            → IsRun p (from + 1) last (retry_loop jitter fn p left (from + 1))
            → IsRun p from last (retry_loop jitter fn p (suc left) from)
        go (ok a) q ih =
            rw (q, retry_loop)
              (record {
                counted = omega arith;
                within = omega arith;
                result = sym q;
                ended = inl (a, q);
                earlier = λ n l h. absurd (omega arith);
                capped = tt;
              })
        go (err x) q ih = elim (Bool-cases (is_retryable x.kind)) [
          | inr f ↦
              rw (q, retry_loop)
                (rw f (record {
                  counted = omega arith;
                  within = omega arith;
                  result = sym q;
                  ended = inr (inl (x, q, f));
                  earlier = λ n l h. absurd (omega arith);
                  capped = tt;
                }))
          | inl t ↦
              rw (q, retry_loop)
                (rw t (record {
                  counted = omega (arith, ih.counted);
                  within = ih.within;
                  result = ih.result;
                  ended = ih.ended;
                  earlier = λ n l h. elim (ℕ_discrete n from) [
                    | yes same ↦ subst (λ k. Retried k) (sym same) (x, q, t)
                    | no other ↦ ih.earlier n (omega arith) h
                  ];
                  capped = (delay_capped from p x, ih.capped);
                }))
        ]

    -- With at least one attempt allowed and a jitter within its ceiling, the run makes at least one
    -- attempt and at most `maxAttempts`; its outcome is that of the last
    -- attempt, which ended the run by a value, by an error that is not retried or by being the last one
    -- allowed; every attempt before it failed with a retried error; and one delay was slept between two
    -- attempts, each at most `maxDelayMs`.
    pub with_retry_lem :
        (p : RetryPolicy)
        → 0 < p.max_attempts
        → let r = with_retry jitter fn p in
          (r.attempts ≡ 1 + length r.delays)
          × (r.attempts ≤ p.max_attempts)
          × (r.outcome ≡ fn r.attempts)
          × Ends p.max_attempts r.attempts
          × ((n : ℕ) → 1 ≤ n → n < r.attempts → Retried n)
          × All (λ d. d ≤ p.max_delay_ms) r.delays
    unfolding with_retry
    with_retry_lem p h =
        let w = loop-IsRun p (p.max_attempts - 1) 1 p.max_attempts (omega arith) in
        (w.counted, w.within, w.result, w.ended, w.earlier, w.capped)
