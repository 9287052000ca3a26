-- ===== src/Instrumentation.antt =====
-- packages/sdk/src/instrumentation: the dimensions of an event and the templates of derived ones.
pub mod Template
pub mod Dimensions
mod Tests
