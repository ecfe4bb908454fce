-- ===== src/Resilience/CircuitBreaker/Tripping.antt =====
-- When a closed breaker opens.
use net.Base.{ℕ, zero, suc, ◌≡◌, Bool, true, false, ◌||◌, List, [], ◌∷◌}
use net.Resilience.CircuitBreaker.{
  CircuitBreaker, CircuitState, closed, opened, record_failure, record_success,
}

-- The results of requests: `true` is a success. Each comes with the clock's reading.
pub record_result : CircuitBreaker → ℕ × Bool → CircuitBreaker
unfolding record_failure record_success
record_result b (now, true) = record_success b
record_result b (now, false) = record_failure now b

pub record_results : CircuitBreaker → List (ℕ × Bool) → CircuitBreaker
record_results b [] = b
record_results b (r ∷ rs) = record_results (record_result b r) rs

-- The results begin with `k` failures.
abbrev pub begins_with_failures : ℕ → List (ℕ × Bool) → Bool
begins_with_failures zero rs = true
begins_with_failures (suc k) [] = false
begins_with_failures (suc k) ((now, ok) ∷ rs) = elim ok [
  | true ↦ false
  | false ↦ begins_with_failures k rs
]

-- The results hold `k` failures in a row.
abbrev pub has_failures : ℕ → List (ℕ × Bool) → Bool
has_failures k [] = begins_with_failures k []
has_failures k (r ∷ rs) = begins_with_failures k (r ∷ rs) || has_failures k rs

abbrev pub is_opened : CircuitState → Bool
is_opened opened = true
is_opened _ = false

-- A breaker that is closed, with `f` failures counted so far.
record IsClosed (b : CircuitBreaker) (threshold f : ℕ) : Type 0 where
  is_closed : b.state ≡ closed
  counted : b.consecutive_failures ≡ f
  configured : b.config.failure_threshold ≡ threshold
