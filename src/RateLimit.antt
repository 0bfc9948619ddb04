-- ===== src/RateLimit.antt =====
-- internal/ratelimit: the token bucket of limiter.go and the three strategies of strategies.go. A
-- limiter's lock makes each call of `Allow` one step; the clock is an argument of the call.
pub mod TokenBucket
pub mod FixedWindow
pub mod SlidingWindow
pub mod LeakyBucket
