-- ===== src/Resilience/Tests.antt =====
-- Runs of src/resilience/circuit_breaker.cpp and src/resilience/rate_limiter.cpp.
use net.Base.{
  ℕ, ◌+◌, ◌-◌, ◌*◌, ◌/◌, ◌^◌, ◌≤◌, ◌≡◌, refl, Bool, true, false, List, [], ◌∷◌, Text, codes, arith,
}
use net.Resilience.CircuitBreaker.{
  CircuitBreaker, CircuitBreakerConfig, closed, opened, half_open, Call, allows, succeeds, fails,
  new_breaker, run, allow_request,
}
use net.Resilience.CircuitBreaker.Counters as Counters
use net.Resilience.CircuitBreaker.Counters.{run-new_breaker-IsValid}
use net.Resilience.CircuitBreaker.Recovery.{run-opened}
use net.Resilience.RateLimiter.{
  RateLimitConfig, RateLimiter, second, new_limiter, check_allow, check_all,
}
use net.Resilience.Doubles.{unit, of_u32, div, mul}
use net.Resilience.RateLimiter.Budget.{AreWords, check_all_bounded}
use net.Resilience.RateLimiter.Spacing.{check_all_spaced}

-- Three failures open the breaker for five seconds; two successes close it again.
abbrev breaker_config : CircuitBreakerConfig
breaker_config = record { failure_threshold = 3; success_threshold = 2; open_timeout = 5 }

abbrev open_breaker : CircuitBreaker
open_breaker = record {
  config = breaker_config;
  state = opened;
  consecutive_failures = 0;
  consecutive_successes = 0;
  open_start_time = 2 * second;
}

abbrev half_open_breaker : CircuitBreaker
half_open_breaker = record {
  config = breaker_config;
  state = half_open;
  consecutive_failures = 0;
  consecutive_successes = 0;
  open_start_time = 2 * second;
}

abbrev three_failures : List (ℕ × Call)
three_failures = (0, fails) ∷ (second, fails) ∷ (2 * second, fails) ∷ []

three_failures_open : run (new_breaker breaker_config) three_failures ≡ open_breaker
unfolding run new_breaker
three_failures_open = refl

recovered :
    (run open_breaker
      ((8 * second, allows) ∷ (8 * second, succeeds) ∷ (9 * second, succeeds) ∷ [])).state
    ≡ closed
unfolding run
recovered = refl

run-new_breaker-IsValid_example : Counters.IsValid (run (new_breaker breaker_config) three_failures)
run-new_breaker-IsValid_example =
    run-new_breaker-IsValid breaker_config three_failures (omega arith) (omega arith)

abbrev mixed_results : List (ℕ × Bool)
mixed_results = (0, false) ∷ (1, false) ∷ (2, true) ∷ (3, false) ∷ (4, false) ∷ (5, false) ∷ []

run-opened_example :
    (run open_breaker ((3 * second, allows) ∷ (4 * second, fails) ∷ []) ≡ open_breaker)
    × (allow_request
          (5 * second)
          (run open_breaker ((3 * second, allows) ∷ (4 * second, fails) ∷ []))
        ≡ (open_breaker, false))
run-opened_example =
    run-opened open_breaker ((3 * second, allows) ∷ (4 * second, fails) ∷ []) (5 * second) refl
      (omega arith, (omega arith, tt)) (omega arith)

-- Two requests a second, and a burst of three.
abbrev limit : RateLimitConfig
limit = record { requests_per_second = 2; burst_size = 3 }

abbrev some_checks : List (Text × ℕ)
some_checks =
    (codes "/a", 0)
    ∷ (codes "/b", 0)
    ∷ (codes "/a", 1)
    ∷ (codes "/a", 2)
    ∷ (codes "/a", second)
    ∷ []

four_allowed : (check_all (new_limiter limit 0) some_checks).1 ≡ 4
unfolding check_all new_limiter check_allow
four_allowed = refl

-- 0.1 * 3.0 is 0.30000000000000004.
three_tenths : mul (div (of_u32 1) (of_u32 10)) (of_u32 3) ≡ 5404319552844596 * 2 ^ 1020
unfolding mul div of_u32 unit
three_tenths = refl

limit_words : AreWords limit
limit_words = record { rate_word = omega arith; burst_word = omega arith }

check_all_bounded_example :
    (check_all (new_limiter limit 0) some_checks).1 * (second * 2 ^ 50)
    ≤ 3 * second * (2 ^ 50 + 5) + (second - 0) * 2 * (2 ^ 50 + 1)
check_all_bounded_example =
    check_all_bounded limit 0 some_checks limit_words
      (omega arith, (omega arith, (omega arith, (omega arith, (omega arith, tt)))))

abbrev drained : RateLimiter
drained = record { config = limit; tokens = 0; last_refill_time = 0 }

abbrev spaced_checks : List (Text × ℕ)
spaced_checks = (codes "/a", second / 2) ∷ (codes "/b", second) ∷ []

check_all_spaced_example : (check_all drained spaced_checks).1 ≡ 2
check_all_spaced_example =
    check_all_spaced drained spaced_checks 0 limit (omega arith) (omega arith) (refl, refl)
      (omega arith, (omega arith, tt))
