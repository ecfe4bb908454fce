-- ===== src/Resilience.antt =====
-- src/resilience: the circuit breaker and the rate limiter.
pub mod Doubles
pub mod CircuitBreaker
pub mod RateLimiter
mod Tests
