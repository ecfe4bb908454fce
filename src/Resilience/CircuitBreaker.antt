-- ===== src/Resilience/CircuitBreaker.antt =====
-- src/resilience/circuit_breaker.cpp. A reading of `steady_clock` is a number of nanoseconds, and an
-- argument of each call that reads the clock; thresholds and counters are `uint32_t`.
pub mod Counters
pub mod Tripping
pub mod Recovery
use net.Base.{ℕ, ◌+◌, ◌-◌, ◌/◌, ◌%◌, ◌^◌, Bool, true, false, leb, if◌then◌else◌, List, [], ◌∷◌}

pub data CircuitState : Type 0 where
  closed opened half_open : CircuitState

-- The time out is in seconds.
pub record CircuitBreakerConfig : Type 0 where
  pub failure_threshold : ℕ
  pub success_threshold : ℕ
  pub open_timeout : ℕ

pub record CircuitBreaker : Type 0 where
  pub config : CircuitBreakerConfig
  pub state : CircuitState
  pub consecutive_failures : ℕ
  pub consecutive_successes : ℕ
  pub open_start_time : ℕ

abbrev pub u32_mod : ℕ
u32_mod = 2 ^ 32

-- `++counter` on a `uint32_t`
abbrev pub increment : ℕ → ℕ
increment n = (n + 1) % u32_mod

-- `duration_cast<seconds>` of a difference of readings.
abbrev pub elapsed_seconds : ℕ → ℕ → ℕ
elapsed_seconds now start = (now - start) / 1_000_000_000

unfoldable pub new_breaker : CircuitBreakerConfig → CircuitBreaker
new_breaker config = record {
  config = config;
  state = closed;
  consecutive_failures = 0;
  consecutive_successes = 0;
  open_start_time = 0;
}

pub transition_to_open : ℕ → CircuitBreaker → CircuitBreaker
transition_to_open now b = record b {
  state = opened;
  open_start_time = now;
  consecutive_failures = 0;
  consecutive_successes = 0;
}

pub transition_to_half_open : CircuitBreaker → CircuitBreaker
transition_to_half_open b = record b {
  state = half_open;
  consecutive_failures = 0;
  consecutive_successes = 0;
}

pub transition_to_closed : CircuitBreaker → CircuitBreaker
transition_to_closed b = record b {
  state = closed;
  consecutive_failures = 0;
  consecutive_successes = 0;
}

pub reset : CircuitBreaker → CircuitBreaker
reset b = record b { state = closed; consecutive_failures = 0; consecutive_successes = 0 }

pub allow_request : ℕ → CircuitBreaker → CircuitBreaker × Bool
unfolding transition_to_half_open
allow_request now b = elim b.state [
  | closed ↦ (b, true)
  | opened ↦
      if leb b.config.open_timeout (elapsed_seconds now b.open_start_time)
      then (transition_to_half_open b, true)
      else (b, false)
  | half_open ↦ (b, true)
]

pub record_success : CircuitBreaker → CircuitBreaker
unfolding transition_to_closed
record_success b =
    let counted = record b { consecutive_successes = increment b.consecutive_successes } in
    elim b.state [
      | closed ↦ record b { consecutive_failures = 0 }
      | opened ↦ b
      | half_open ↦
          if leb b.config.success_threshold counted.consecutive_successes
          then transition_to_closed counted
          else counted
    ]

pub record_failure : ℕ → CircuitBreaker → CircuitBreaker
unfolding transition_to_open
record_failure now b =
    let counted = record b { consecutive_failures = increment b.consecutive_failures } in
    elim b.state [
      | closed ↦
          if leb b.config.failure_threshold counted.consecutive_failures
          then transition_to_open now counted
          else counted
      | opened ↦ b
      | half_open ↦ transition_to_open now b
    ]

-- The calls of a client, with the reading of the clock at each.
pub data Call : Type 0 where
  allows succeeds fails resets : Call

pub step : CircuitBreaker → ℕ × Call → CircuitBreaker
unfolding allow_request record_success record_failure reset
step b (now, allows) = (allow_request now b).0
step b (now, succeeds) = record_success b
step b (now, fails) = record_failure now b
step b (now, resets) = reset b

unfoldable pub run : CircuitBreaker → List (ℕ × Call) → CircuitBreaker
unfolding step
run b [] = b
run b (c ∷ cs) = run (step b c) cs
