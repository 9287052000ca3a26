-- ===== src/Pii.antt =====
-- The PII layer of the SDK (packages/sdk/src/pii): JSON values, the JSONPath of a field rule, and
-- the compiled field rules.
pub mod Json
pub mod Path
pub mod FieldRules
pub mod Tests
