-- ===== src/Express.antt =====
-- The Express adapter (packages/sdk/src/frameworks/express): circuit breaker, decision cache and
-- the guard that composes them.
pub mod CircuitBreaker
pub mod DecisionCache
pub mod Guard
