-- ===== src/Resilience/CircuitBreaker/Counters.antt =====
-- What the breaker's counters hold in each state.
use net.Base.{ℕ, ◌<◌, ◌≡◌, ◌⊎◌, List, [], ◌∷◌, arith}
use net.Resilience.CircuitBreaker.{
  CircuitBreaker, CircuitBreakerConfig, closed, half_open, u32_mod, new_breaker, Call, allows,
  succeeds, fails, resets, step, run,
}

-- Failures are counted only while closed, and below the threshold; successes only while half open,
-- and below theirs.
pub record IsValid (b : CircuitBreaker) : Type 0 where
  pub failures :
      (b.consecutive_failures ≡ 0)
      ⊎ ((b.state ≡ closed) × (b.consecutive_failures < b.config.failure_threshold))
  pub successes :
      (b.consecutive_successes ≡ 0)
      ⊎ ((b.state ≡ half_open) × (b.consecutive_successes < b.config.success_threshold))
  pub failure_threshold_fits : b.config.failure_threshold < u32_mod
  pub success_threshold_fits : b.config.success_threshold < u32_mod

new_breaker-IsValid :
    (c : CircuitBreakerConfig)
    → c.failure_threshold < u32_mod
    → c.success_threshold < u32_mod
    → IsValid (new_breaker c)
unfolding new_breaker
new_breaker-IsValid c f s = ground arith

-- Every call keeps the counters so.
pub step-IsValid : (b : CircuitBreaker) (c : ℕ × Call) → IsValid b → IsValid (step b c)
unfolding step
step-IsValid b (now, allows) v = ground arith
step-IsValid b (now, succeeds) v = ground arith
step-IsValid b (now, fails) v = ground arith
step-IsValid b (now, resets) v = ground arith

run-IsValid : (b : CircuitBreaker) (cs : List (ℕ × Call)) → IsValid b → IsValid (run b cs)
unfolding run
run-IsValid b [] v = v
run-IsValid b (c ∷ cs) v = run-IsValid (step b c) cs (step-IsValid b c v)

-- After any calls on a new breaker whose thresholds fit 32 bits, the failures counted are zero, or
-- below their threshold and the breaker closed, and the successes counted are zero, or below theirs
-- and the breaker half open.
pub run-new_breaker-IsValid :
    (c : CircuitBreakerConfig) (cs : List (ℕ × Call))
    → c.failure_threshold < u32_mod
    → c.success_threshold < u32_mod
    → IsValid (run (new_breaker c) cs)
run-new_breaker-IsValid c cs f s = run-IsValid (new_breaker c) cs (new_breaker-IsValid c f s)
