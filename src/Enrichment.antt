-- ===== src/Enrichment.antt =====
-- packages/sdk/src/enrichment: the client of an enrichment webhook (Client), the response that it
-- accepts (Response), and what guards its calls, one state for each reference (Breaker, RateLimit).
pub mod Breaker
pub mod RateLimit
pub mod Response
pub mod Client
mod Tests
mod ClientTests
