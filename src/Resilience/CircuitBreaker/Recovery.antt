-- ===== src/Resilience/CircuitBreaker/Recovery.antt =====
-- How an open breaker refuses requests, and how it closes again.
use net.Base.{
  ℕ, zero, suc, ◌+◌, ◌<◌, ◌≤◌, ◌≡◌, refl, ap, sym, subst, true, false, List, [], ◌∷◌, arith, All,
}
use net.Resilience.CircuitBreaker.{
  CircuitBreaker, closed, opened, half_open, u32_mod, elapsed_seconds, Call, allows, succeeds,
  fails, resets, step, run, allow_request, record_success, record_failure,
}

-- The call is no reset, and comes before the time out of the open state is over.
abbrev pub IsWithinTimeout : CircuitBreaker → ℕ × Call → Type 0
IsWithinTimeout b (now, resets) = ⊥
IsWithinTimeout b (now, call) = elapsed_seconds now b.open_start_time < b.config.open_timeout

step-opened :
    (b : CircuitBreaker) (c : ℕ × Call) → b.state ≡ opened → IsWithinTimeout b c → step b c ≡ b
unfolding step
step-opened b (now, allows) e h = ground arith
step-opened b (now, succeeds) e h = ground arith
step-opened b (now, fails) e h = ground arith
step-opened b (now, resets) e h = absurd h

-- Until its time out is over, no call but `reset` changes an open breaker, and it refuses every
-- request.
pub run-opened :
    (b : CircuitBreaker) (cs : List (ℕ × Call)) (now : ℕ)
    → b.state ≡ opened
    → All (IsWithinTimeout b) cs
    → IsWithinTimeout b (now, allows)
    → (run b cs ≡ b) × (allow_request now (run b cs) ≡ (b, false))
unfolding run allow_request
run-opened b [] now e h k = (refl, ground arith)
run-opened b (c ∷ cs) now e h k =
    let same = step-opened b c e h.0 in
    subst (λ x. (run x cs ≡ b) × (allow_request now (run x cs) ≡ (b, false))) (sym same)
      (run-opened b cs now e h.1 k)

-- The first request after the time out is let through and makes the breaker half open, with both
-- counters at zero.
pub allow_request_after_timeout :
    (b : CircuitBreaker) (now : ℕ)
    → b.state ≡ opened
    → b.config.open_timeout ≤ elapsed_seconds now b.open_start_time
    → ((allow_request now b).1 ≡ true)
      × ((allow_request now b).0
          ≡ record b { state = half_open; consecutive_failures = 0; consecutive_successes = 0 })
unfolding allow_request
allow_request_after_timeout b now e h = (ground arith, ground arith)

-- `n` successes in a row.
abbrev pub successes : ℕ → CircuitBreaker → CircuitBreaker
successes zero b = b
successes (suc n) b = successes n (record_success b)

half_open-success :
    (b : CircuitBreaker) (n : ℕ)
    → b.state ≡ half_open
    → b.consecutive_successes + suc (suc n) ≤ b.config.success_threshold
    → b.config.success_threshold < u32_mod
    → ((record_success b).state ≡ half_open)
      × ((record_success b).consecutive_successes ≡ suc b.consecutive_successes)
      × ((record_success b).config ≡ b.config)
unfolding record_success
half_open-success b n e h fits = (ground arith, ground arith, ground arith)

half_open-last :
    (b : CircuitBreaker)
    → b.state ≡ half_open
    → b.consecutive_successes + 1 ≡ b.config.success_threshold
    → b.config.success_threshold < u32_mod
    → (record_success b).state ≡ closed
unfolding record_success
half_open-last b e h fits = ground arith

-- A half-open breaker stays half open for fewer successes than are missing, and closes with the last
-- of them, if the threshold fits 32 bits.
pub half_open_closes :
    (b : CircuitBreaker) (n : ℕ)
    → b.state ≡ half_open
    → b.consecutive_successes + suc n ≡ b.config.success_threshold
    → b.config.success_threshold < u32_mod
    → ((successes n b).state ≡ half_open) × ((successes (suc n) b).state ≡ closed)
half_open_closes b zero e h fits = (e, half_open-last b e h fits)
half_open_closes b (suc n) e h fits =
    let (same, count, config) = half_open-success b n e (omega arith) fits in
    half_open_closes (record_success b) n same (omega (arith, ap (λ c. c.success_threshold) config))
      (omega (arith, ap (λ c. c.success_threshold) config))

-- One failure reopens a half-open breaker, whatever it counted, and the time out starts anew.
pub half_open_reopens :
    (b : CircuitBreaker) (now later : ℕ)
    → b.state ≡ half_open
    → elapsed_seconds later now < b.config.open_timeout
    → ((record_failure now b).state ≡ opened)
      × ((allow_request later (record_failure now b)).1 ≡ false)
unfolding record_failure allow_request
half_open_reopens b now later e h = (ground arith, ground arith)
